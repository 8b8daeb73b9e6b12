-- ===== src/Config/Usable/Guards.antt =====
-- config/loader.go: the guards of `validateConfig`, backwards from an answer without an error.
use callfs.Prelude.{
  ◌≡◌, ◌≢◌, refl, ap, arith, String, Text, text_eq_iff, Bool, true, false, [], Result, ok, err,
}
use callfs.Config.Validate.{require, and_then, is_set}

pub require_ok :
    {A : Type 0} {a : A} (test : Bool) (what : String) (rest : Result A)
    → require test what rest ≡ ok a
    → (test ≡ true) × (rest ≡ ok a)
unfolding require
require_ok true what rest h = (refl, h)
require_ok false what rest h = absurd (ground arith)

pub and_then_ok :
    {A B : Type 0} {b : B} (r : Result A) (rest : A → Result B)
    → and_then r rest ≡ ok b
    → (a : A) × (r ≡ ok a) × (rest a ≡ ok b)
and_then_ok (ok a) rest h = (a, refl, h)
and_then_ok (err e) rest h = absurd (ground arith)

pub set_text : (s : Text) → is_set s ≡ true → s ≢ []
set_text s h e = ground (arith, text_eq_iff s [])

pub ok_injective : {A : Type 0} {a b : A} → ok a ≡ ok b → a ≡ b
ok_injective {a = a} e = ap (λ r. elim r [ ok x ↦ x | err _ ↦ a ]) e
