-- ===== src/SpiNor/Address.antt =====
-- `SpiNor::encodeAddress`: addresses on the wire.
use mrs_fpga_toolkit.Base.{ℕ, ◌+◌, ◌*◌, ◌^◌, ◌≤◌, ◌<◌, ◌≡◌, arith, List, [], ◌∷◌, length, All}
use mrs_fpga_toolkit.Machine.{ok, throws, out_of_range, ◌>>=◌}
use mrs_fpga_toolkit.SpiNor.{
  Nor, SpiNor, Profile, spansion, micron, profiles, profile_of, address_bytes_of, encode_address,
}

-- What the flash reads: the bytes of an address, the most significant first.
pub decoded : ℕ → List ℕ → ℕ
decoded high [] = high
decoded high (b ∷ bytes) = decoded (high * 256 + b) bytes

pub encoded_lem :
    (p : Profile) (address : ℕ)
    → address < 2 ^ (8 * (profiles p).address_bytes)
    → let bytes = address_bytes_of (profiles p).address_bytes address in
      (decoded 0 bytes ≡ address)
      × (length bytes ≡ (profiles p).address_bytes)
      × All (λ b. b < 256) bytes
unfolding address_bytes_of decoded
encoded_lem spansion address h = ground arith
encoded_lem micron address h = ground arith

-- Every address below the limit of the command is encoded, as bytes of the profile's number that the
-- flash decodes to it; every other is refused. The state stays as it was.
pub encode_address-decoded :
    {S : Type 0} (nor : SpiNor S) (address : ℕ) (n : Nor S)
    → let (r, n') = encode_address nor address n in
      let limit = 2 ^ (8 * (profile_of nor).address_bytes) in
      (n' ≡ n)
      × (address < limit
          → (bytes : List ℕ) → r ≡ ok bytes
          → (decoded 0 bytes ≡ address)
            × (length bytes ≡ (profile_of nor).address_bytes)
            × All (λ b. b < 256) bytes)
      × (address < limit → r ≡ ok (address_bytes_of (profile_of nor).address_bytes address))
      × (limit ≤ address → r ≡ throws (out_of_range "flash address exceeds command width"))
unfolding encode_address ◌>>=◌
encode_address-decoded nor address n = (
  ground arith,
  λ small bytes e. ground (arith, encoded_lem nor.profile address),
  λ small. ground arith,
  λ large. ground (arith, positive nor.profile),
)
  where
    positive : (p : Profile) → 0 < 2 ^ (8 * (profiles p).address_bytes)
    positive spansion = omega arith
    positive micron = omega arith
