-- ===== src/Pcie/Address.antt =====
-- PCI addresses as fpgactl/src/pcie.cpp normalizes them.
use mrs_fpga_toolkit.Base.{
  ℕ, ◌≡◌, refl, ap, sym, subst, ◌∙◌, arith, Bool, true, false, ◌&&◌, leb, ◌==◌, if◌then◌else◌, [],
  ◌∷◌, ◌++◌, map, Text, codes,
}
use mrs_fpga_toolkit.Machine.{ok, throws, error}
use mrs_fpga_toolkit.Common.Process.{is_hex_digit}
use mrs_fpga_toolkit.Pcie.{is_bus_address, is_full_address, to_lower, normalize_bdf}

to_lower_twice : (c : ℕ) → to_lower (to_lower c) ≡ to_lower c
to_lower_twice c = ground arith

map-to_lower_twice : (t : Text) → map to_lower (map to_lower t) ≡ map to_lower t
map-to_lower_twice [] = refl
map-to_lower_twice (c ∷ rest) = rw (to_lower_twice c, map-to_lower_twice rest)

hex-to_lower : (c : ℕ) → is_hex_digit c ≡ true → is_hex_digit (to_lower c) ≡ true
hex-to_lower c h = ground arith

colon-to_lower : (x : ℕ) → (x == 58) ≡ true → (to_lower x == 58) ≡ true
colon-to_lower x h = ground arith

point-to_lower : (x : ℕ) → (x == 46) ≡ true → (to_lower x == 46) ≡ true
point-to_lower x h = ground arith

low-to_lower : (f : ℕ) → leb 48 f ≡ true → leb 48 (to_lower f) ≡ true
low-to_lower f h = ground arith

high-to_lower : (f : ℕ) → leb f 55 ≡ true → leb (to_lower f) 55 ≡ true
high-to_lower f h = ground arith

and_map :
    {a b c d : Bool}
    → (a ≡ true → c ≡ true)
    → (b ≡ true → d ≡ true)
    → (a && b) ≡ true
    → (c && d) ≡ true
and_map {a = true} {b = true} f g h = let first = f refl in let second = g refl in ground arith
and_map {a = true} {b = false} f g h = absurd (cc)
and_map {a = false} f g h = absurd (cc)

bus-to_lower : (t : Text) → is_bus_address t ≡ true → is_bus_address (map to_lower t) ≡ true
unfolding is_bus_address
bus-to_lower (a ∷ b ∷ x ∷ c ∷ d ∷ y ∷ f ∷ []) h =
    and_map
      (and_map
        (and_map
          (and_map
            (and_map (and_map (and_map (hex-to_lower a) (hex-to_lower b)) (colon-to_lower x))
              (hex-to_lower c))
            (hex-to_lower d))
          (point-to_lower y))
        (low-to_lower f))
      (high-to_lower f) h
bus-to_lower [] h = absurd (cc)
bus-to_lower (a ∷ []) h = absurd (cc)
bus-to_lower (a ∷ b ∷ []) h = absurd (cc)
bus-to_lower (a ∷ b ∷ x ∷ []) h = absurd (cc)
bus-to_lower (a ∷ b ∷ x ∷ c ∷ []) h = absurd (cc)
bus-to_lower (a ∷ b ∷ x ∷ c ∷ d ∷ []) h = absurd (cc)
bus-to_lower (a ∷ b ∷ x ∷ c ∷ d ∷ y ∷ []) h = absurd (cc)
bus-to_lower (a ∷ b ∷ x ∷ c ∷ d ∷ y ∷ f ∷ z ∷ rest) h = absurd (cc)

full-to_lower : (t : Text) → is_full_address t ≡ true → is_full_address (map to_lower t) ≡ true
unfolding is_full_address
full-to_lower (a ∷ b ∷ c ∷ d ∷ x ∷ rest) h =
    and_map
      (and_map
        (and_map (and_map (and_map (hex-to_lower a) (hex-to_lower b)) (hex-to_lower c))
          (hex-to_lower d))
        (colon-to_lower x))
      (bus-to_lower rest) h
full-to_lower [] h = absurd (cc)
full-to_lower (a ∷ []) h = absurd (cc)
full-to_lower (a ∷ b ∷ []) h = absurd (cc)
full-to_lower (a ∷ b ∷ x ∷ []) h = absurd (cc)
full-to_lower (a ∷ b ∷ x ∷ c ∷ []) h = absurd (cc)

full_of_bus : (t : Text) → is_bus_address t ≡ true → is_full_address (codes "0000:" ++ t) ≡ true
unfolding is_full_address
full_of_bus t h = h

no_and : (b : Bool) → (b && false) ≡ true → ⊥
no_and true h = cc
no_and false h = cc

-- A full address is too long for one without a domain.
not_bus_of_full : (t : Text) → is_full_address t ≡ true → is_bus_address t ≡ false
unfolding is_full_address is_bus_address
not_bus_of_full [] h = refl
not_bus_of_full (a ∷ []) h = refl
not_bus_of_full (a ∷ b ∷ []) h = refl
not_bus_of_full (a ∷ b ∷ c ∷ []) h = refl
not_bus_of_full (a ∷ b ∷ c ∷ d ∷ []) h = refl
not_bus_of_full (a ∷ b ∷ c ∷ d ∷ x ∷ []) h = refl
not_bus_of_full (a ∷ b ∷ c ∷ d ∷ x ∷ e ∷ []) h = refl
not_bus_of_full (a ∷ b ∷ c ∷ d ∷ x ∷ e ∷ f ∷ []) h = absurd (no_and _ h)
not_bus_of_full (a ∷ b ∷ c ∷ d ∷ x ∷ e ∷ f ∷ g ∷ rest) h = refl

normalize_full : (t : Text) → is_full_address t ≡ true → normalize_bdf t ≡ ok (map to_lower t)
unfolding normalize_bdf
normalize_full t h = rw (not_bus_of_full t h, h)

ok_inj : {x y : Text} → ok x ≡ ok y → x ≡ y
ok_inj e = cc

-- A normalized address is a full one in lower case, and normalizing it again gives it back.
pub normalize_bdf_idempotent :
    (value address : Text)
    → normalize_bdf value ≡ ok address
    → (is_full_address address ≡ true)
      × (map to_lower address ≡ address)
      × (normalize_bdf address ≡ ok address)
unfolding normalize_bdf
normalize_bdf_idempotent value address h =
    on (is_bus_address value) (is_full_address value) refl refl h
  where
    settled :
        (t : Text)
        → is_full_address t ≡ true
        → map to_lower t ≡ address
        → (is_full_address address ≡ true)
          × (map to_lower address ≡ address)
          × (normalize_bdf address ≡ ok address)
    settled t full same =
        let low : map to_lower address ≡ address =
          ap (map to_lower) (sym same) ∙ map-to_lower_twice t ∙ same in
        let whole : is_full_address address ≡ true =
          subst (λ u. is_full_address u ≡ true) same (full-to_lower t full) in
        (whole, low, normalize_full address whole ∙ ap ok low)

    on :
        (b f : Bool)
        → is_bus_address value ≡ b
        → is_full_address value ≡ f
        → (if b
            then ok (map to_lower (codes "0000:" ++ value))
            else if f
            then ok (map to_lower value)
            else throws (error (codes "invalid PCI BDF: " ++ value)))
          ≡ ok address
        → (is_full_address address ≡ true)
          × (map to_lower address ≡ address)
          × (normalize_bdf address ≡ ok address)
    on true f hb hf e = settled (codes "0000:" ++ value) (full_of_bus value hb) (ok_inj e)
    on false true hb hf e = settled value hf (ok_inj e)
    on false false hb hf e = absurd (cc)
