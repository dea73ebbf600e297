-- ===== src/Strings.antt =====
-- What the program uses of Go's strings: `TrimSpace(s) == ""` and `len(s)`. A text is a sequence of
-- code points, which encoding/json and pgx give as valid UTF-8.
use Prim.Native.String.{len}
use apostas_api.Prelude.{ℕ, Bool, true, ◌&&◌, ◌||◌, String, [], ◌∷◌, Bytes, codes, leb, eqb}

-- `unicode.IsSpace`
abbrev pub is_space : ℕ → Bool
is_space c =
    leb 9 c && leb c 13
    || eqb c 32
    || eqb c 0x85
    || eqb c 0xa0
    || eqb c 0x1680
    || leb 0x2000 c && leb c 0x200a
    || eqb c 0x2028
    || eqb c 0x2029
    || eqb c 0x202f
    || eqb c 0x205f
    || eqb c 0x3000

all_space : Bytes → Bool
all_space [] = true
all_space (c ∷ s) = is_space c && all_space s

-- `strings.TrimSpace(s) == ""`
unfoldable pub is_blank : String → Bool
unfolding all_space
is_blank s = all_space (codes s)

-- `len(s)`, in bytes
abbrev pub byte_length : String → ℕ
byte_length s = len s
