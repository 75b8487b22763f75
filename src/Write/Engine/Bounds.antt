-- ===== src/Write/Engine/Bounds.antt =====
-- The bound on the contacts of a run, and the runs that keep it.
use nsysu_crs.Common.{
  ℕ, ◌≤◌, Text, ◌≡◌, refl, sym, ap, Bool, true, false, List, [], ◌∷◌, ◌++◌, arith, if◌then◌else◌,
}
use nsysu_crs.Write.Payload.{Dict}
use nsysu_crs.Write.Engine.{Contact, form_fetch, form_post, result_fetch, times}

-- At most three fetches of the form, then at most three posts of one payload to one URL, then at
-- most one fetch of the results; and a result fetch only after a post.
pub record IsBounded (contacts : List Contact) : Type 0 where
  pub fetches : ℕ
  pub url : Text
  pub payload : Dict
  pub posts : ℕ
  pub results : ℕ
  pub shape :
      contacts
      ≡ times fetches form_fetch
        ++ (times posts (form_post url payload) ++ times results result_fetch)
  pub few_fetches : fetches ≤ 3
  pub few_posts : posts ≤ 3
  pub few_results : results ≤ 1
  pub results_late : results ≤ posts

append_nil {ℓ} : {A : Type ℓ} (xs : List A) → xs ++ [] ≡ xs
append_nil [] = refl
append_nil (x ∷ xs) = ap (λ ys. x ∷ ys) (append_nil xs)

append_assoc {ℓ} : {A : Type ℓ} (xs ys zs : List A) → (xs ++ ys) ++ zs ≡ xs ++ (ys ++ zs)
append_assoc [] ys zs = refl
append_assoc (x ∷ xs) ys zs = ap (λ more. x ∷ more) (append_assoc xs ys zs)

pub only_fetches : (n : ℕ) → n ≤ 3 → IsBounded (times n form_fetch)
only_fetches n h = record {
  fetches = n;
  url = [];
  payload = [];
  posts = 0;
  results = 0;
  shape = sym (append_nil (times n form_fetch));
  few_fetches = h;
  few_posts = omega arith;
  few_results = omega arith;
  results_late = omega arith;
}

pub then_posts :
    (n p : ℕ) (url : Text) (payload : Dict)
    → n ≤ 3
    → p ≤ 3
    → IsBounded (times n form_fetch ++ times p (form_post url payload))
then_posts n p url payload h k = record {
  fetches = n;
  url = url;
  payload = payload;
  posts = p;
  results = 0;
  shape =
      ap (λ more. times n form_fetch ++ more) (sym (append_nil (times p (form_post url payload))));
  few_fetches = h;
  few_posts = k;
  few_results = omega arith;
  results_late = omega arith;
}

pub then_result :
    (n p : ℕ) (url : Text) (payload : Dict)
    → n ≤ 3
    → p ≤ 3
    → 1 ≤ p
    → IsBounded ((times n form_fetch ++ times p (form_post url payload)) ++ (result_fetch ∷ []))
then_result n p url payload h k l = record {
  fetches = n;
  url = url;
  payload = payload;
  posts = p;
  results = 1;
  shape = append_assoc (times n form_fetch) (times p (form_post url payload)) (result_fetch ∷ []);
  few_fetches = h;
  few_posts = k;
  few_results = omega arith;
  results_late = l;
}

pub maybe_result :
    (n p : ℕ) (url : Text) (payload : Dict)
    → n ≤ 3
    → p ≤ 3
    → 1 ≤ p
    → (contacted : Bool)
    → IsBounded (
        if contacted
        then (times n form_fetch ++ times p (form_post url payload)) ++ (result_fetch ∷ [])
        else times n form_fetch ++ times p (form_post url payload))
maybe_result n p url payload h k l true = then_result n p url payload h k l
maybe_result n p url payload h k l false = then_posts n p url payload h k
