-- ===== src/Common/Errors.antt =====
-- Go's `error` values as far as the program looks into them, and results of fallible calls.
use mathlib.Core.Path.{◌≡◌, refl}
use mathlib.Core.Bool.{Bool, true, false}
use mathlib.Core.Option.{Option, none, some}
use native.Mathlib.Omega.{arith}
use mathlib.Core.List.{List, [], ◌∷◌}
use Prim.Native.String.{String}

-- The reasons of an API status that the program tells apart.
pub data Reason : Type 0 where
  not_found already_exists other_reason : Reason

-- `joined` is `errors.Join` of two errors that are not nil, `wrapped` is `fmt.Errorf` with `%w`.
pub data Error : Type 0 where
  api : Reason → Error
  message : String → Error
  wrapped : String → Error → Error
  joined : Error → Error → Error
  secret_not_found : Error

-- `panic` is a nil dereference or a write to a nil map: it ends the whole handler.
pub data Result {ℓ} (A : Type ℓ) : Type ℓ where
  ok : A → Result A
  err : Error → Result A
  panic : Result A

abbrev or_reason : Option Reason → Option Reason → Option Reason
or_reason none r = r
or_reason (some a) r = some a

-- `apierrors.ReasonForError`: the first API status of the tree that `errors.As` walks.
abbrev pub reason_for_error : Error → Option Reason
reason_for_error (api r) = some r
reason_for_error (message m) = none
reason_for_error (wrapped m e) = reason_for_error e
reason_for_error (joined d e) = or_reason (reason_for_error d) (reason_for_error e)
reason_for_error secret_not_found = none

abbrev is_not_found_reason : Option Reason → Bool
is_not_found_reason none = false
is_not_found_reason (some not_found) = true
is_not_found_reason (some already_exists) = false
is_not_found_reason (some other_reason) = false

abbrev pub is_not_found : Error → Bool
is_not_found e = is_not_found_reason (reason_for_error e)

abbrev is_already_exists_reason : Option Reason → Bool
is_already_exists_reason none = false
is_already_exists_reason (some not_found) = false
is_already_exists_reason (some already_exists) = true
is_already_exists_reason (some other_reason) = false

abbrev pub is_already_exists : Error → Bool
is_already_exists e = is_already_exists_reason (reason_for_error e)

-- The type of a call that returns only an `error`; nil is `ok tt`.
abbrev pub Outcome : Type 0
Outcome = Result (Unit {0})

-- `client.IgnoreNotFound`
abbrev pub ignore_not_found : Error → Outcome
ignore_not_found e = elim (is_not_found e) [ true ↦ ok tt | false ↦ err e ]

-- `errors.Join` of two results.
abbrev pub join : Outcome → Outcome → Outcome
join (ok _) r = r
join (err d) (ok _) = err d
join (err d) (err e) = err (joined d e)
join (err d) panic = panic
join panic r = panic

-- `errors.Join` of the errors that a loop has collected.
abbrev pub join_all : List Error → Outcome
join_all [] = ok tt
join_all (e ∷ es) = join (err e) (join_all es)

-- A call whose error is returned at once, where no world is changed.
abbrev pub and_then {ℓ κ} : {A : Type ℓ} {B : Type κ} → Result A → (A → Result B) → Result B
and_then (ok a) f = f a
and_then (err e) f = err e
and_then panic f = panic

module _ {ℓ} {A : Type ℓ} where
  abbrev pub is_ok : Result A → Bool
  is_ok (ok a) = true
  is_ok (err e) = false
  is_ok panic = false

pub join_all-eq-ok : (es : List Error) → join_all es ≡ ok tt → es ≡ []
join_all-eq-ok [] h = refl
join_all-eq-ok (e ∷ es) h = ground arith

pub ok_injective {ℓ} : {A : Type ℓ} (a b : A) → ok a ≡ ok b → a ≡ b
ok_injective a b h = cc

pub and_then-ok {ℓ κ} :
    {A : Type ℓ} {B : Type κ} (r : Result A) (f : A → Result B) (b : B)
    → and_then r f ≡ ok b
    → (a : A) × (r ≡ ok a) × (f a ≡ ok b)
and_then-ok (ok a) f b h = (a, refl, h)
and_then-ok (err e) f b h = cc
and_then-ok panic f b h = cc
