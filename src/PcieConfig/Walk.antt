-- ===== src/PcieConfig/Walk.antt =====
-- The walk over the capability list in `decodePcieControl` of fpgactl/src/pcie.cpp.
use mrs_fpga_toolkit.Base.{
  ℕ, zero, suc, ◌+◌, ◌*◌, ◌/◌, ◌%◌, ◌≤◌, ◌<◌, ◌≡◌, ◌≢◌, min, subst, refl, ap, ◌∙◌, sym, arith,
  bit_and, bit_or, ◌^◌, false, List, [], ◌∷◌, length, get_or, if◌then◌else◌,
}
use mrs_fpga_toolkit.Base.Bits.{bit_and_step, bit_and_low}
use mrs_fpga_toolkit.Machine.{Outcome, ok, throws, hangs}
use mrs_fpga_toolkit.Machine.Returns.{
  Returns, Then, Returns-bind, Returns-pure, Returns-throw, Returns-hang, Returns-choose,
  Returns-by, Returns-throw_if, Returns-given,
}
use mrs_fpga_toolkit.PcieConfig.{
  PcieControl, member, little16, capability_loop, decode_pcie_control,
}

-- How many of the first `n` possible pointers have not been visited.
free : ℕ → List ℕ → ℕ
free zero visited = 0
free (suc n) visited =
    let rest = free n visited in if member (4 * n) visited then rest else rest + 1

free_beyond : (n k : ℕ) (visited : List ℕ) → n ≤ k → free n (4 * k ∷ visited) ≡ free n visited
unfolding free member
free_beyond zero k visited h = refl
free_beyond (suc n) k visited h = ground (arith, free_beyond n k visited)

free_visit :
    (n k : ℕ) (visited : List ℕ)
    → k < n
    → member (4 * k) visited ≡ false
    → free n (4 * k ∷ visited) + 1 ≡ free n visited
unfolding free member
free_visit zero k visited h fresh = absurd (omega arith)
free_visit (suc n) k visited h fresh =
    ground (arith, free_visit n k visited, free_beyond n k visited)

pointer_lem : (x : ℕ) → bit_and x 0xfc ≡ 4 * (x / 4 % 64)
pointer_lem x =
    let a : bit_and x 252 ≡ bit_and (x / 2) 126 * 2 + min (x % 2) 0 = bit_and_step x 252 in
    let b : bit_and (x / 2) 126 ≡ bit_and (x / 2 / 2) 63 * 2 + min (x / 2 % 2) 0 =
      bit_and_step (x / 2) 126 in
    let c : bit_and (x / 2 / 2) 63 ≡ x / 2 / 2 % 64 = bit_and_low 6 (x / 2 / 2) in
    omega (arith, a, b, c)

-- The pointers of the capability list: the one at 0x34, and after an entry that is not the one sought the byte next to its
-- identifier. The low two bits of a pointer are reserved.
pub data Linked (config : List ℕ) : ℕ → Type 0 where
  first : Linked config (4 * (get_or config 0x34 0 / 4 % 64))
  next :
      (p : ℕ)
      → Linked config p
      → p ≢ 0
      → get_or config p 0 ≢ 0x10
      → Linked config (4 * (get_or config (p + 1) 0 / 4 % 64))

-- The entry of the list with the identifier of PCI Express, and the fields of its control word.
abbrev pub Found : List ℕ → PcieControl → Type 0
Found config c =
    let at = c.capability_offset in
    Linked config at
    × (at ≢ 0)
    × (get_or config at 0 ≡ 0x10)
    × (at + 10 ≤ length config)
    × (c.device_control ≡ bit_or (get_or config (at + 8) 0) (get_or config (at + 9) 0 * 2 ^ 8))
    × (c.mps_bytes ≡ 128 * 2 ^ (c.device_control / 2 ^ 5 % 8))
    × (c.mrrs_bytes ≡ 128 * 2 ^ (c.device_control / 2 ^ 12 % 8))

abbrev Walks : (S : Type 0) → ℕ → List ℕ → List ℕ → ℕ → Type 0
Walks S rounds config visited pointer =
    Returns (λ (s : S). Unit) (capability_loop rounds config pointer visited)
      (λ c s. Found config c)

size_field : (x : ℕ) → 128 * 2 ^ bit_and x 7 ≡ 128 * 2 ^ (x % 8)
size_field x = ap (λ (t : ℕ). 128 * 2 ^ t) (bit_and_low 3 x)

abbrev word_of : ℕ → ℕ → ℕ
word_of low high = bit_or low (high * 2 ^ 8)

word_at :
    (config : List ℕ) (at : ℕ)
    → word_of (get_or config (at + 8) 0) (get_or config (at + 8 + 1) 0)
      ≡ word_of (get_or config (at + 8) 0) (get_or config (at + 9) 0)
word_at config at =
    let nine : at + 8 + 1 ≡ at + 9 = omega arith in
    ap (λ (n : ℕ). word_of (get_or config (at + 8) 0) (get_or config n 0)) nine

little16-word :
    {S : Type 0} (config : List ℕ) (offset : ℕ)
    → Returns
        (λ (s : S). Unit)
        (little16 config offset)
        (λ v s.
          (offset + 2 ≤ length config)
          × (v ≡ word_of (get_or config offset 0) (get_or config (offset + 1) 0)))
unfolding little16
little16-word config offset =
    Returns-bind _ _ (Returns-throw_if _ _)
      (λ _. Returns-pure _ (λ s h. (ground (arith, h.1), refl)))

walk :
    {S : Type 0} (rounds : ℕ) (config : List ℕ) (k : ℕ) (visited : List ℕ)
    → k < 64
    → Linked config (4 * k)
    → free 64 visited < rounds
    → Returns
        (λ (s : S). Unit)
        (capability_loop rounds config (4 * k) visited)
        (λ c s. Found config c)
unfolding capability_loop
walk {S} zero config k visited small linked enough = Returns-hang (λ s h. absurd (omega arith))
walk {S} (suc rounds) config k visited small linked enough =
    let at : ℕ = 4 * k in
    let next_byte = get_or config (4 * k + 1) 0 in
    let j : ℕ = next_byte / 4 % 64 in
    Returns-choose _ _ _ (λ none. Returns-throw _)
      (λ some. Returns-bind _ _ (Returns-throw_if _ _) (λ _.
        Returns-bind _ _ (Returns-throw_if _ _) (λ _.
          Returns-given {P' = λ s. Unit} _ (λ s h. (h.1, tt))
            (λ fresh.
              Returns-choose _ _ _
                (λ express. Returns-bind _ _ (little16-word config (at + 8)) (λ value.
                  Returns-pure _ (λ s h. (
                    linked,
                    ground (arith, some),
                    ground (arith, express),
                    omega (arith, h.0),
                    h.1 ∙ word_at config at,
                    size_field (value / 2 ^ 5),
                    size_field (value / 2 ^ 12),
                  ))))
                (λ other.
                  subst (Walks S rounds config (at ∷ visited)) (sym (pointer_lem next_byte)) (
                    walk rounds config j (at ∷ visited) (omega arith)
                      (next at linked (ground (arith, some)) (ground (arith, other)))
                      (omega (arith, free_visit 64 k visited small fresh))))))))

decode-Returns :
    {S : Type 0} (config : List ℕ)
    → Returns (λ (s : S). Unit) (decode_pcie_control config) (λ c s. Found config c)
unfolding decode_pcie_control little16 free member
decode-Returns {S} config =
    let start = get_or config 0x34 0 in
    Returns-bind _ _ (Returns-throw_if _ _) (λ _.
      Returns-bind _ _
        (Returns-bind {R = λ _ s. Unit} _ _ (Returns-by _ (Returns-throw_if _ _) (λ _ s h. tt))
          (λ _. Returns-pure {Q = λ _ s. Unit} _ (λ s h. tt)))
        (λ status.
          Returns-bind {R = λ _ s. Unit} _ _ (Returns-by _ (Returns-throw_if _ _) (λ _ s h. tt))
            (λ _.
              subst (Walks S 66 config []) (sym (pointer_lem start))
                (walk 66 config (start / 4 % 64) [] (omega arith) first (ground arith)))))

-- Whatever the configuration space holds, cyclic and truncated lists included, decoding it returns or throws. What it
-- returns describes an entry that the pointers of the capability list reach, with the identifier of PCI Express: its
-- control word is the two bytes at offset 8 of the entry, inside the configuration space, and the two sizes are those of
-- bits 5 to 7 and 12 to 14 of that word.
pub decode_pcie_control_ends :
    {S : Type 0} (config : List ℕ) (s : S)
    → let r = (decode_pcie_control config s).0 in
      (r ≢ hangs) × ((c : PcieControl) → r ≡ ok c → Found config c)
decode_pcie_control_ends config s =
    on (decode_pcie_control config s).0 (decode_pcie_control config s).1
      ((decode-Returns config).at s tt)
  where
    on :
        {T : Type 0} (r : Outcome PcieControl) (s' : T)
        → Then (λ c s. Found config c) r s'
        → (r ≢ hangs) × ((c : PcieControl) → r ≡ ok c → Found config c)
    on (ok a) s' h =
        (λ e. cc, λ c e. let same : a ≡ c = ground (arith, e) in subst (Found config) same h)
    on (throws x) s' h = (λ e. cc, λ c e. absurd cc)
    on hangs s' h = absurd h
