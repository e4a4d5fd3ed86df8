-- ===== src/Testbase/Cases.antt =====
-- The test cases of testbase/testbase.go, and how they are run. A value of `interface{}` is of a type
-- `A`, for which `reflect.DeepEqual` is a parameter; of `t`, the failures that it reports are kept, each
-- by the name of its case. A call may change a state.
use compute_user_accounts.Base.{
  List, [], ◌∷◌, ◌++◌, Bool, true, false, ◌||◌, not, Option, none, some, Bytes, bytes_eq,
  if◌then◌else◌,
}
use compute_user_accounts.Accounts.{Error, error_text}

module _ (A S : Type 0) where
  pub record SuccessCase : Type 0 where
    pub name : Bytes
    pub call : S → (A × Option Error) × S
    pub exp : A

  pub record FailureCase : Type 0 where
    pub name : Bytes
    pub call : S → (A × Option Error) × S
    pub exp : Bytes

  pub data TestCase : Type 0 where
    success : SuccessCase → TestCase
    failure : FailureCase → TestCase

abbrev is_nil : Option Error → Bool
is_nil none = true
is_nil (some e) = false

abbrev fails_as : Bytes → Option Error → Bool
fails_as exp none = false
fails_as exp (some e) = bytes_eq exp (error_text e)

module _ {A S : Type 0} (deep_equal : A → A → Bool) where
  unfoldable pub run_success : SuccessCase A S → S → List Bytes × S
  run_success c s =
      let ((ret, e), s') = c.call s in
      (if not (deep_equal c.exp ret) || not (is_nil e) then c.name ∷ [] else [], s')

  unfoldable pub run_failure : FailureCase A S → S → List Bytes × S
  unfolding error_text
  run_failure c s =
      let ((ret, e), s') = c.call s in (if fails_as c.exp e then [] else c.name ∷ [], s')

  unfoldable pub run : TestCase A S → S → List Bytes × S
  unfolding run_success run_failure
  run (success c) s = run_success c s
  run (failure c) s = run_failure c s

  unfoldable pub run_cases : List (TestCase A S) → S → List Bytes × S
  unfolding run
  run_cases [] s = ([], s)
  run_cases (c ∷ cases) s =
      let (failed, s') = run c s in let (others, t) = run_cases cases s' in (failed ++ others, t)
