-- ===== src/Common/Strings.antt =====
-- Go strings as lists of bytes, with the functions of package strings that the services call.
use Prim.Native.Nat.{ℕ, ◌+◌}
use Prim.Native.Char.{code}
use Prim.Native.String.{String}
use mathlib.Core.Path.{◌≡◌, refl}
use mathlib.Core.Logic.{◌↔◌}
use mathlib.Core.Bool.{Bool, true, false, ◌&&◌, ◌||◌}
use mathlib.Core.List.{List, [], ◌∷◌, ◌++◌, map}
use native.Mathlib.Omega.{arith}
use telemetry_search_engine.Common.Tests.{ltb, leb, eqb, if◌then◌else◌}
use telemetry_search_engine.Common.Equality.{Eq}

abbrev pub Text : Type 0
Text = List ℕ

-- The bytes of an ASCII literal.
abbrev pub codes : String → Text
codes String.[] = []
codes (String.◌∷◌ c s) = code c ∷ codes s

unfoldable pub text_beq : Text → Text → Bool
text_beq [] [] = true
text_beq (a ∷ s) (b ∷ t) = eqb a b && text_beq s t
text_beq _ _ = false

pub text_beq_iff : (s t : Text) → (text_beq s t ≡ true) ↔ (s ≡ t)
unfolding text_beq
text_beq_iff [] [] = (λ _. refl, λ _. refl)
text_beq_iff (a ∷ s) (b ∷ t) = ground (arith, text_beq_iff s t)
text_beq_iff [] (b ∷ t) = ground arith
text_beq_iff (a ∷ s) [] = ground arith

instance abbrev pub text_eq : Eq Text
text_eq = record { equals = text_beq; decides = text_beq_iff }

-- strings.HasPrefix
unfoldable pub has_prefix : Text → Text → Bool
has_prefix s [] = true
has_prefix [] (p ∷ ps) = false
has_prefix (c ∷ s) (p ∷ ps) = eqb c p && has_prefix s ps

-- strings.Contains
unfoldable pub contains_text : Text → Text → Bool
unfolding has_prefix
contains_text [] sub = has_prefix [] sub
contains_text (c ∷ s) sub = has_prefix (c ∷ s) sub || contains_text s sub

-- strings.Join
unfoldable pub join : List Text → Text → Text
join [] sep = []
join (s ∷ []) sep = s
join (s ∷ t ∷ ts) sep = s ++ sep ++ join (t ∷ ts) sep

-- strings.Split for a separator of one byte; the first piece is begun by `cur`.
unfoldable pub split_byte : ℕ → Text → Text → List Text
split_byte sep cur [] = cur ∷ []
split_byte sep cur (c ∷ s) =
    let closed = cur ∷ split_byte sep [] s in
    let longer = split_byte sep (cur ++ c ∷ []) s in if eqb c sep then closed else longer

unfoldable pub is_upper : ℕ → Bool
is_upper c = leb b'A' c && leb c b'Z'

unfoldable pub lower_byte : ℕ → ℕ
unfolding is_upper
lower_byte c = if is_upper c then c + 32 else c

unfoldable pub is_ascii : Text → Bool
is_ascii [] = true
is_ascii (c ∷ s) = ltb c 128 && is_ascii s

-- strings.ToLower: byte by byte on ASCII text, else `unicode`, the mapping by the Unicode tables.
unfoldable pub to_lower : (Text → Text) → Text → Text
unfolding is_ascii lower_byte
to_lower unicode s = if is_ascii s then map lower_byte s else unicode s
