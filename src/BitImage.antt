-- ===== src/BitImage.antt =====
-- Xilinx configuration images: `big16`, `big32`, `containsSync` and `loadImage` of
-- fpgactl/src/qspi.cpp, and `validateBitImage` of fpgactl/src/jtag.cpp.
-- A file is the list of its bytes, and a character is its byte.
use mrs_fpga_toolkit.Base.{
  ℕ, zero, suc, ◌+◌, ◌-◌, ◌*◌, ◌^◌, bit_or, Bool, not, ◌&&◌, ◌||◌, ltb, leb, ◌==◌, ◌!=◌, List, [],
  ◌∷◌, length, get_or, take, drop, all, map, Option, none, some, if◌then◌else◌,
}
use mrs_fpga_toolkit.Base.Bits.{u16, u32}
use mrs_fpga_toolkit.Machine.{
  M, ⊤, ok, runtime_error, pure, throw, throw_if, choose, hang, ◌>>=◌, ◌>>◌,
}
use mrs_fpga_toolkit.SpiNor.{starts_with}
use mrs_fpga_toolkit.QspiProgram.{same_bytes}

-- `metadata`, the newest entry first; a name stands as its tag.
pub record Image : Type 0 where
  pub bytes : List ℕ
  pub metadata : List (ℕ × List ℕ)

abbrev byte_at : List ℕ → ℕ → ℕ
byte_at raw position = get_or raw position 0

module _ {S : Type 0} where
  unfoldable pub big16 : List ℕ → ℕ → M S ℕ
  big16 raw offset = do
    throw_if (ltb (length raw) (offset + 2)) (runtime_error "truncated Xilinx .bit header")
    pure (bit_or (u16 (byte_at raw offset * 2 ^ 8)) (byte_at raw (offset + 1)))

  unfoldable pub big32 : List ℕ → ℕ → M S ℕ
  big32 raw offset = do
    throw_if (ltb (length raw) (offset + 4)) (runtime_error "truncated Xilinx .bit payload length")
    pure (
        bit_or
          (bit_or (bit_or (byte_at raw offset * 2 ^ 24) (byte_at raw (offset + 1) * 2 ^ 16))
            (byte_at raw (offset + 2) * 2 ^ 8))
          (byte_at raw (offset + 3)))

-- `std::search`: does the pattern occur?
unfoldable pub contains : List ℕ → List ℕ → Bool
contains pattern [] = starts_with pattern []
contains pattern (b ∷ bytes) =
    let later = contains pattern bytes in starts_with pattern (b ∷ bytes) || later

unfoldable pub contains_sync : List ℕ → Bool
contains_sync bytes = contains (0xaa ∷ 0x99 ∷ 0x55 ∷ 0x66 ∷ []) (take 4096 bytes)

-- `while (!value.empty() && value.back() == 0) value.pop_back();`
unfoldable pub strip_zeros : List ℕ → List ℕ
strip_zeros [] = []
strip_zeros (b ∷ value) = keep b (strip_zeros value)
  where
    keep : ℕ → List ℕ → List ℕ
    keep b [] = if b == 0 then [] else b ∷ []
    keep b (c ∷ rest) = b ∷ c ∷ rest

-- `std::tolower` in the C locale.
abbrev lower : ℕ → ℕ
lower c = if leb 65 c && leb c 90 then c + 32 else c

abbrev pub find_tag : ℕ → List (ℕ × List ℕ) → Option (List ℕ)
find_tag tag [] = none
find_tag tag ((t, value) ∷ rest) = if t == tag then some value else find_tag tag rest

module _ {S : Type 0} where
  -- The loop over the fields from `position` on. Each round passes the tag at least.
  unfoldable pub field_loop : ℕ → List ℕ → ℕ → List (ℕ × List ℕ) → M S Image
  field_loop zero raw position metadata = hang
  field_loop (suc rounds) raw position metadata =
      choose (not (ltb position (length raw)))
        (throw (runtime_error "Xilinx .bit payload field was not found"))
        do
          let tag = byte_at raw position
          choose (tag == 101)
              (do
                size ← big32 raw (position + 1)
                throw_if (ltb (length raw - (position + 5)) size)
                    (runtime_error "Xilinx .bit payload is shorter than declared")
                pure record { bytes = take size (drop (position + 5) raw); metadata = metadata })
              (do
                size ← big16 raw (position + 1)
                throw_if (ltb (length raw - (position + 3)) size)
                    (runtime_error "truncated Xilinx .bit metadata")
                let value = strip_zeros (take size (drop (position + 3) raw))
                let known = leb 97 tag && leb tag 100
                field_loop rounds raw (position + 3 + size)
                    (if known then (tag, value) ∷ metadata else metadata))

  unfoldable pub parse_bit : List ℕ → M S Image
  parse_bit raw = do
    throw_if (ltb (length raw) 16) (runtime_error "Xilinx .bit image is too short")
    header ← big16 raw 0
    marker ← big16 raw (2 + header)
    throw_if (marker != 1) (runtime_error "unexpected Xilinx .bit secondary-header length")
    field_loop (suc (length raw)) raw (4 + header) []

  abbrev check_part : Option (List ℕ) → Option (List ℕ) → M S ⊤
  check_part none found = pure tt
  check_part (some expected) none =
      throw (runtime_error "--expected-part requires a .bit image with part metadata")
  check_part (some expected) (some actual) =
      throw_if (not (contains (map lower expected) (map lower actual)))
        (runtime_error "bitstream part does not match --expected-part")

  -- `extension` is that of the path, `raw` the content of the file.
  unfoldable pub load_image : List ℕ → List ℕ → Option (List ℕ) → M S Image
  load_image extension raw expected_part = do
    image ←
        choose (same_bytes (map lower extension) (46 ∷ 98 ∷ 105 ∷ 110 ∷ []))
          (pure record { bytes = raw; metadata = [] })
          (choose (same_bytes (map lower extension) (46 ∷ 98 ∷ 105 ∷ 116 ∷ [])) (parse_bit raw)
            (throw (runtime_error "supported image extensions are .bit and .bin")))
    throw_if (not (contains_sync image.bytes))
        (runtime_error "Xilinx synchronization word was not found near image start")
    throw_if (length image.bytes == 0 || all (λ value. value == 0xff) image.bytes)
        (runtime_error "refusing an empty or all-0xff image")
    check_part expected_part (find_tag 98 image.metadata)
    pure image

-- `readLength` and `skip`: the state is the position.
unfoldable pub length_loop : ℕ → List ℕ → ℕ → M ℕ ℕ
length_loop zero raw value position = (ok value, position)
length_loop (suc count) raw value position =
    length_loop count raw (bit_or (u32 (value * 2 ^ 8)) (byte_at raw position)) (position + 1)

unfoldable pub read_length : List ℕ → ℕ → M ℕ ℕ
read_length raw count = do
  position ← λ p. (ok p, p)
  throw_if (ltb (length raw - position) count) (runtime_error "truncated bitstream header")
  length_loop count raw 0

unfoldable pub skip : List ℕ → ℕ → M ℕ ⊤
skip raw count = do
  position ← λ p. (ok p, p)
  throw_if (ltb (length raw - position) count) (runtime_error "truncated bitstream header")
  λ p. (ok tt, p + count)

unfoldable pub check_fields : List ℕ → List ℕ → M ℕ ⊤
check_fields raw [] = pure tt
check_fields raw (field ∷ fields) = do
  position ← λ p. (ok p, p)
  throw_if (position == length raw || byte_at raw position != field)
      (runtime_error "invalid bitstream header field")
  λ p. (ok tt, p + 1)
  count ← read_length raw (if field == 101 then 4 else 2)
  here ← λ p. (ok p, p)
  choose (field == 101)
      (throw_if (count == 0 || count != length raw - here)
        (runtime_error "bitstream payload length does not match the complete image file"))
      (skip raw count >> check_fields raw fields)

-- The fields are `abcde`.
unfoldable pub validate_bit_image : List ℕ → M ℕ ⊤
validate_bit_image raw = do
  header ← read_length raw 2
  skip raw header
  marker ← read_length raw 2
  throw_if (marker != 1) (runtime_error "invalid bitstream field marker length")
  check_fields raw (97 ∷ 98 ∷ 99 ∷ 100 ∷ 101 ∷ [])
