-- ===== src/Backpopulate/Key.antt =====
-- `text.partition(':')`, without the separator, and the key that the aggregation key of a course run
-- holds.
use Prim.Native.Char.{Char, code}
use Prim.Native.String.{◌++◌}
use Prim.Native.String.append
use edx_enterprise_subsidy.Common.{String, true, false, ◌==◌, if◌then◌else◌, ◌≡◌, refl, ◌∙◌, ap}

unfoldable pub partition_colon : String → String × String
partition_colon String.[] = ("", "")
partition_colon (String.◌∷◌ c s) =
    let (before, after) = partition_colon s in
    if code c == b':' then ("", s) else (String.◌∷◌ c before, after)

abbrev pub NoColon : String → Type 0
NoColon String.[] = Unit
NoColon (String.◌∷◌ c s) = ((code c == b':') ≡ false) × NoColon s

at_colon :
    (c : Char) (t : String) → (code c == b':') ≡ true → partition_colon (String.◌∷◌ c t) ≡ ("", t)
unfolding partition_colon
at_colon c t h = rw h refl

past_char :
    (c : Char) (s u v : String)
    → (code c == b':') ≡ false
    → partition_colon u ≡ (s, v)
    → partition_colon (String.◌∷◌ c u) ≡ (String.◌∷◌ c s, v)
unfolding partition_colon
past_char c s u v h e = rw (h, e) refl

abbrev colon : Char
colon = Char.char b':' tt

pub partition_colon-append : (s t : String) → NoColon s → partition_colon (s ++ (":" ++ t)) ≡ (s, t)
partition_colon-append String.[] t h =
    ap partition_colon
      (append.nil (":" ++ t) ∙ append.cons colon "" t ∙ ap (λ u. String.◌∷◌ colon u) (append.nil t))
    ∙ at_colon colon t refl
partition_colon-append (String.◌∷◌ c s) t (ne, h) =
    ap partition_colon (append.cons c s (":" ++ t))
    ∙ past_char c s (s ++ (":" ++ t)) t ne (partition_colon-append s t h)
