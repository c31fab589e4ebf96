-- ===== src/Trust/Planner/Guest.antt =====
-- What the operations of a plan mean for the guest's root store, as the executor carries them out:
-- a verification that fails stops the run.
use susentorno.Base.{
  ℕ, ◌≡◌, refl, subst, arith, Bool, true, false, ◌&&◌, Option, none, some, List, [], ◌∷◌, ◌++◌,
  ◌==◌, has, if◌then◌else◌, Bool-cases, inl, inr,
}
use susentorno.Base.Sets.{all_in, none_in, without, append_nil}
use susentorno.Trust.Planner.{
  TrustCertificate, PlanOperation, import_ambient, import_proxy, verify_store, remove_proxy, shas,
  push_write, push_import, push_proxy, to_import,
}

abbrev pub perform : PlanOperation → List ℕ → Option (List ℕ)
perform (import_ambient roots) store = some (store ++ shas roots)
perform (import_proxy root) store = some (store ++ root.sha256 ∷ [])
perform (verify_store present absent) store =
    if all_in present store && none_in absent store then some store else none
perform (remove_proxy sha) store = some (without sha store)
perform _ store = some store

abbrev pub bind : Option (List ℕ) → (List ℕ → Option (List ℕ)) → Option (List ℕ)
bind none f = none
bind (some store) f = f store

unfoldable pub run_all : List PlanOperation → List ℕ → Option (List ℕ)
run_all [] store = some store
run_all (op ∷ ops) store = bind (perform op store) (run_all ops)

pub run_all-push_write :
    (cs : List TrustCertificate) (ops : List PlanOperation) (store : List ℕ)
    → run_all (push_write cs ops) store ≡ run_all ops store
unfolding run_all
run_all-push_write [] ops store = refl
run_all-push_write (c ∷ cs) ops store = refl

pub run_all-push_import :
    (cs : List TrustCertificate) (ops : List PlanOperation) (store : List ℕ)
    → run_all (push_import cs ops) store ≡ run_all ops (store ++ shas cs)
unfolding run_all
run_all-push_import [] ops store = rw (append_nil store) refl
run_all-push_import (c ∷ cs) ops store = refl

abbrev pub proxy_shas : Bool → TrustCertificate → List ℕ
proxy_shas false proxy = []
proxy_shas true proxy = proxy.sha256 ∷ []

pub run_all-push_proxy :
    (b : Bool) (proxy : TrustCertificate) (ops : List PlanOperation) (store : List ℕ)
    → run_all (push_proxy b proxy ops) store ≡ run_all ops (store ++ proxy_shas b proxy)
unfolding run_all
run_all-push_proxy false proxy ops store = rw (append_nil store) refl
run_all-push_proxy true proxy ops store = refl

-- The store without the superseded proxy CA.
abbrev pub cleaned : Option ℕ → List ℕ → List ℕ
cleaned none store = store
cleaned (some sha) store = without sha store

-- A certificate that the guest lacks is imported.
pub has-to_import :
    (x : ℕ) (guest : List ℕ) (cs : List TrustCertificate)
    → has x (shas cs) ≡ true
    → has x guest ≡ false
    → has x (shas (to_import guest cs)) ≡ true
has-to_import x guest [] m g = m
has-to_import x guest (c ∷ cs) m g = elim (Bool-cases (x == c.sha256)) [
  | inl y ↦
      let same : x ≡ c.sha256 = ground arith in
      let g' : has c.sha256 guest ≡ false = subst (λ z. has z guest ≡ false) same g in
      rw (g', y) refl
  | inr n ↦
      let m' : has x (shas cs) ≡ true = ground arith in
      let r = has-to_import x guest cs m' g in
      elim (Bool-cases (has c.sha256 guest)) [ inl h ↦ rw h r | inr h ↦ rw (h, n) r ]
]
