-- ===== src/Documents.antt =====
-- Document bodies (spring/docgen.py): the values of a document, the alphabet of a key, and strings of
-- a wanted size.
pub mod Fields
pub mod Lookup
pub mod Arrays
pub mod Alphabet
pub mod Total
pub mod References
pub mod Disjoint
pub mod Joined
pub mod Profile
pub mod Transfer
pub mod Samples
pub mod Pieces
pub mod Order
pub mod Basic
use Prim.Native.String.{String}
use perfrunner.Prelude.{
  ℕ, zero, suc, ◌+◌, ◌-◌, ◌*◌, ◌/◌, ◌≡◌, List, [], ◌∷◌, ◌++◌, Result, ok, err, ◌>>=◌, index_error,
  take, repeat, slice, length, get_elem?, Option, some, none,
}
use perfrunner.Prelude.Int.{ℤ, pos, negsuc, Ratio, to_ℕ, ◌-ℤ◌}
use perfrunner.Text.{Text}
use perfrunner.Keys.{hex_digest}
use perfrunner.Generators.{randint}

-- The Python values that documents are made of.
mutual
  pub data Json : Type 0 where
    text : Text → Json
    int : ℤ → Json
    real : Ratio → Json
    array : Values → Json
    object : Members → Json

  pub data Values : Type 0 where
    no_value : Values
    value : Json → Values → Values

  pub data Members : Type 0 where
    no_field : Members
    field : String → Json → Members → Members

-- An entry of a dictionary display: its name, and the expression that gives its value.
pub record Entry : Type 0 where
  pub name : String
  pub value : Result Json

-- { name: value, … }: the expressions are evaluated in order.
unfoldable pub fields : List Entry → Result Members
fields [] = ok no_field
fields (e ∷ es) = e.value >>= λ v. fields es >>= λ fs. ok (field e.name v fs)

unfoldable pub dict : List Entry → Result Json
unfolding fields
dict es = fields es >>= λ fs. ok (object fs)

infix 90 ◌~>◌
abbrev pub ◌~>◌ : String → Result Json → Entry
n ~> v = record { name = n; value = v }

abbrev pub ok_text : Text → Result Json
ok_text t = ok (text t)

abbrev pub texts : List Text → Values
texts [] = no_value
texts (t ∷ ts) = value (text t) (texts ts)

abbrev pub ints : List ℤ → Values
ints [] = no_value
ints (n ∷ ns) = value (int n) (ints ns)

-- What the documents use and the generator does not define: `spooky.hash128`, `time.gmtime`, and the
-- word lists of spring/dictionary.py.
pub record Env : Type 0 where
  pub hash128 : Text → ℕ
  pub gmtime : ℕ → Json
  pub states : List (Text × Text)
  pub street_suffix : List Text
  pub lorem : Text

abbrev pub reverse : Text → Text
reverse [] = []
reverse (c ∷ t) = reverse t ++ c ∷ []

-- `String.build_alphabet`
unfoldable pub build_alphabet : (Text → ℕ) → Text → Text
unfolding hex_digest
build_alphabet hash128 key = hex_digest hash128 key ++ hex_digest hash128 (reverse key)

-- ceil(n / d)
abbrev pub ceil_div : ℕ → ℕ → ℕ
ceil_div n d = (n + d - 1) / d

-- `build_string` on slices of a width, for the length n / d. With a negative length there are no
-- slices, and the part of the empty text is empty.
unfoldable pub build_slices : ℕ → Text → ℤ → ℕ → Text
build_slices width slice (pos n) d = take (n / d) (repeat (ceil_div n (d * width)) slice)
build_slices width slice (negsuc n) d = []

-- `String.build_string`
abbrev pub build_string : Text → ℤ → ℕ → Text
build_string = build_slices 64

-- `LargeDocument.build_string`
unfoldable pub build_large_string : (Text → ℕ) → Text → ℤ → ℕ → Text
unfolding hex_digest build_slices
build_large_string hash128 alphabet = build_slices 32 (hex_digest hash128 alphabet)

-- `IncompressibleString.build_string`
unfoldable pub build_incompressible : Text → ℕ → ℕ → Result Text
build_incompressible alphabet draw length_int =
    randint draw (pos 0) (pos (length alphabet) -ℤ pos length_int) >>= λ offset.
    ok (slice (to_ℕ offset) (to_ℕ offset + length_int) alphabet)

-- `PlasmaDocument.build_item` without a prefix, for the length that is left
unfoldable pub rotated_item : Text → ℕ → ℤ → Result Text
unfolding build_slices
rotated_item alphabet draw len = randint draw (pos 1) len >>= λ num.
    let body = repeat (ceil_div (to_ℕ len) 64) alphabet in
    ok (slice (to_ℕ num) (to_ℕ len) body ++ slice 0 (to_ℕ num) body)

-- `PlasmaDocument.build_item`
unfoldable pub build_item : Text → ℕ → ℕ → Text → Result Text
unfolding rotated_item
build_item alphabet draw size [] = rotated_item alphabet draw (pos size)
build_item alphabet draw size (c ∷ prefix) =
    rotated_item alphabet draw (pos size -ℤ pos (length (c ∷ prefix))) >>= λ item.
    ok ((c ∷ prefix) ++ b'-' ∷ item)

-- The element that an index reaches; none is an IndexError.
abbrev pub or_index_error {ℓ} : {A : Type ℓ} → Option A → Result A
or_index_error none = err index_error
or_index_error (some x) = ok x

-- `t[i]`, a text of one character
unfoldable pub char_at : Text → ℕ → Result Text
char_at t i = or_index_error (get_elem? t i) >>= λ c. ok (c ∷ [])
