-- ===== src/SpiNor/Reading.antt =====
-- What `SpiNor::read` returns.
use mrs_fpga_toolkit.Base.{
  ℕ, zero, suc, ◌+◌, ◌-◌, ◌*◌, ◌^◌, ◌≤◌, ◌<◌, ◌≡◌, ◌≢◌, refl, sym, ap, ◌∙◌, arith, true, false, ltb,
  not, List, [], ◌∷◌, ◌++◌, length, get_or, drop, replicate, min, Bool,
}
use mrs_fpga_toolkit.Base.Bits.{u64, any_bit}
use mrs_fpga_toolkit.Machine.{
  M, Outcome, ok, throws, hangs, out_of_range, choose, throw, ◌>>=◌, pure,
}
use mrs_fpga_toolkit.Machine.Returns.{
  Returns, Then, Returns-bind, Returns-pure, Returns-hang, Returns-choose, Returns-throw_if,
  Returns-given,
}
use mrs_fpga_toolkit.SpiNor.{
  Spi, Nor, SpiNor, Profile, spansion, micron, profiles, profile_of, address_bytes_of, transfer,
  check_range, encode_address,
}
use mrs_fpga_toolkit.SpiNor.Blocks.{maximum_data, read_loop, read}

-- The bytes of `memory` from an address on.
unfoldable pub cells : (ℕ → ℕ) → ℕ → ℕ → List ℕ
cells memory address zero = []
cells memory address (suc n) = memory address ∷ cells memory (address + 1) n

length-cells : (memory : ℕ → ℕ) (address n : ℕ) → length (cells memory address n) ≡ n
unfolding cells
length-cells memory address zero = refl
length-cells memory address (suc n) = ap suc (length-cells memory (address + 1) n)

cells-append :
    (memory : ℕ → ℕ) (address m n : ℕ)
    → cells memory address m ++ cells memory (address + m) n ≡ cells memory address (m + n)
unfolding cells
cells-append memory address zero n =
    let here : address + 0 ≡ address = omega arith in
    let all : 0 + n ≡ n = omega arith in rw (here, all) refl
cells-append memory address (suc m) n =
    let next : address + suc m ≡ address + 1 + m = omega arith in
    let all : suc m + n ≡ suc (m + n) = omega arith in
    let rest = cells-append memory (address + 1) m n in rw (next, all, sym rest) refl

-- What the data sheets and the host promise. An idle flash answers the read command with the bytes
-- from its address on after the header, changes none and stays idle; a status with the bit `wip` off
-- says that it is idle, and asking for it disturbs nothing. A transfer returns or throws. The clock never goes back and ticks
-- when it is read.
pub record NorFlash {S : Type 0} (spi : Spi S) (p : Profile) (memory : S → ℕ → ℕ)
    (Idle : S → Type 0) (time : S → ℕ) : Type 0 where
  pub reads :
      (address n : ℕ) (s : S)
      → Idle s
      → let header =
          (profiles p).read_command ∷ address_bytes_of (profiles p).address_bytes address in
        let (r, s') = spi.transfer (header ++ replicate n 0) s in
        (response : List ℕ)
        → r ≡ ok response
        → (drop (length header) response ≡ cells (memory s) address n)
          × (memory s' ≡ memory s)
          × Idle s'
  pub status_tells :
      (s : S) (response : List ℕ)
      → let (r, s') = spi.transfer (0x05 ∷ 0 ∷ []) s in
        r ≡ ok response → any_bit (get_or response 1 0) 0x01 ≡ false → Idle s'
  pub status_keeps : (s : S) → Idle s → Idle (spi.transfer (0x05 ∷ 0 ∷ []) s).1
  pub ends : (bytes : List ℕ) (s : S) → (spi.transfer bytes s).0 ≢ hangs
  pub transfer_steady : (bytes : List ℕ) (s : S) → time s ≤ time (spi.transfer bytes s).1
  pub now_reads : (s : S) → (spi.now s).0 ≡ time (spi.now s).1
  pub now_ticks : (s : S) → time s < time (spi.now s).1
  pub sleep_steady : (ns : ℕ) (s : S) → time s ≤ time (spi.sleep_for ns s)

pub wide : (p : Profile) → (profiles p).address_bytes ≤ 4
wide spansion = omega arith
wide micron = omega arith

module _ {S : Type 0} (nor : SpiNor S) where
  pub encoded_bind :
      {B : Type 0} {P : Nor S → Type 0} {Q : B → Nor S → Type 0} (address : ℕ)
      (f : List ℕ → M (Nor S) B)
      → Returns P (f (address_bytes_of (profile_of nor).address_bytes address)) Q
      → Returns P (encode_address nor address >>= f) Q
  unfolding encode_address ◌>>=◌
  encoded_bind {B} {P} {Q} address f k =
      on (ltb (2 ^ (8 * (profile_of nor).address_bytes) - 1) address)
    where
      bytes : List ℕ
      bytes = address_bytes_of (profile_of nor).address_bytes address

      on :
          (b : Bool)
          → Returns P
              (choose b (throw (out_of_range "flash address exceeds command width")) (pure bytes)
                >>= f)
              Q
      on true = record { at = λ s h. tt }
      on false = k

module _ {S : Type 0} (nor : SpiNor S) (memory : S → ℕ → ℕ) (Idle : S → Type 0) (time : S → ℕ)
    (chip : NorFlash nor.spi nor.profile memory Idle time) where
  -- The flash is idle and holds `m`.
  abbrev pub Holds : (ℕ → ℕ) → Nor S → Type 0
  Holds m n = Idle n.device × (memory n.device ≡ m)

  abbrev header_of : ℕ → List ℕ
  header_of address =
      (profile_of nor).read_command ∷ address_bytes_of (profile_of nor).address_bytes address

  answered :
      (m : ℕ → ℕ) (address n : ℕ)
      → Returns (Holds m) (transfer nor.spi (header_of address ++ replicate n 0)) (λ response s.
        (drop (length (header_of address)) response ≡ cells m address n) × Holds m s)
  unfolding transfer
  answered m address n = record {
    at = λ s h.
        on (nor.spi.transfer (header_of address ++ replicate n 0) s.device).0 _ s.jedec_id h.1
          (chip.ends (header_of address ++ replicate n 0) s.device)
          (chip.reads address n s.device h.0);
  }
    where
      on :
          {known : ℕ → ℕ} (r : Outcome (List ℕ)) (s' : S) (id : List ℕ)
          → known ≡ m
          → r ≢ hangs
          → ((response : List ℕ)
              → r ≡ ok response
              → (drop (length (header_of address)) response ≡ cells known address n)
                × (memory s' ≡ known)
                × Idle s')
          → Then
              (λ response s.
                (drop (length (header_of address)) response ≡ cells m address n) × Holds m s)
              r
              (record { device = s'; jedec_id = id })
      on (ok response) s' id e w h =
          let f = h response refl in (f.0 ∙ ap (λ k. cells k address n) e, (f.2, f.1 ∙ e))
      on (throws x) s' id e w h = tt
      on hangs s' id e w h = w refl

  read_loop-Returns :
      (rounds : ℕ) (m : ℕ → ℕ) (address size : ℕ) (output : List ℕ)
      → address + size ≤ 2 ^ 32
      → size < rounds + length output
      → length output ≤ size
      → output ≡ cells m address (length output)
      → Returns
          (Holds m)
          (read_loop nor rounds address size output)
          (λ result s. (result ≡ cells m address size) × Holds m s)
  unfolding read_loop
  read_loop-Returns zero m address size output small enough fits so_far =
      Returns-hang (λ s h. absurd (omega arith))
  read_loop-Returns (suc rounds) m address size output small enough fits so_far =
      let k = length output in
      let address' = u64 (address + k) in
      let chunk = min (maximum_data nor) (size - k) in
      let place : address' ≡ address + k = omega arith in
      Returns-choose (not (ltb k size)) _ _
        (λ done. Returns-pure output (λ s h. (so_far ∙ ap (cells m address) (ground arith), h)))
        (λ more. encoded_bind nor address' _ (
          Returns-bind _ _ (answered m address' chunk) (λ response.
            Returns-given _ (λ s h. h)
              (λ got.
                let grown = output ++ drop (length (header_of address')) response in
                let part = drop (length (header_of address')) response in
                let whole : grown ≡ cells m address (k + chunk) =
                  ap (λ l. l ++ part) so_far
                  ∙ ap (λ l. cells m address k ++ l) (got ∙ ap (λ a. cells m a chunk) place)
                  ∙ cells-append m address k chunk in
                let long : length grown ≡ k + chunk =
                  ap length whole ∙ length-cells m address (k + chunk) in
                let same : grown ≡ cells m address (length grown) =
                  whole ∙ ap (cells m address) (sym long) in
                read_loop-Returns rounds m address size grown small
                  (ground (arith, more, wide nor.profile)) (omega arith) same))))

  pub read-Returns :
      (m : ℕ → ℕ) (address size : ℕ)
      → nor.capacity ≤ 2 ^ 32
      → Returns
          (Holds m)
          (read nor address size)
          (λ result s. (result ≡ cells m address size) × Holds m s)
  unfolding read check_range cells
  read-Returns m address size fits = Returns-bind _ _ (Returns-throw_if _ _) (λ _.
      Returns-given _ (λ s h. (h.1, h.0))
        (λ inside.
          read_loop-Returns (suc size) m address size [] (ground (arith, inside)) (omega arith)
            (omega arith) refl))

  -- From an idle flash that obeys its data sheet, and whose capacity is at most 2 ^ 32, a read returns or throws,
  -- and what it returns are the bytes that the flash holds there, as many as were asked for.
  pub read_holds :
      (address size : ℕ) (n : Nor S)
      → nor.capacity ≤ 2 ^ 32
      → Idle n.device
      → let (r, n') = read nor address size n in
        (r ≢ hangs)
        × ((bytes : List ℕ)
            → r ≡ ok bytes
            → (bytes ≡ cells (memory n.device) address size) × (length bytes ≡ size))
  read_holds address size n fits idle =
      on (read nor address size n).0 (read nor address size n).1
        ((read-Returns (memory n.device) address size fits).at n (idle, refl))
    where
      m : ℕ → ℕ
      m = memory n.device

      on :
          (r : Outcome (List ℕ)) (n' : Nor S)
          → Then (λ bytes s. (bytes ≡ cells m address size) × Holds m s) r n'
          → (r ≢ hangs)
            × ((bytes : List ℕ)
                → r ≡ ok bytes
                → (bytes ≡ cells m address size) × (length bytes ≡ size))
      on (ok got) n' h = (
        λ e. cc,
        λ bytes e.
            let same : bytes ≡ cells m address size = ground (arith, e, h.0) in
            (same, ap length same ∙ length-cells m address size),
      )
      on (throws x) n' h = (λ e. cc, λ bytes e. absurd cc)
      on hangs n' h = absurd h
