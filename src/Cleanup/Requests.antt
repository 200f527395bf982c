-- ===== src/Cleanup/Requests.antt =====
-- internal/cleanup: what leaves the machine, and what comes back.
use dicta.Base.{
  ℕ, ◌≡◌, refl, false, not, List, [], ◌∷◌, Option, none, some, Text, Unicode, is_empty, trim_space,
  take, ◌/◌, ◌==◌, if_intro,
}
use dicta.Cleanup.{
  Profile, mechanical, passthrough, other, HttpCleaner, Cleaner, passes, http, Request, Reply,
  not_built, not_posted, not_read, response, Json, Cleaned, text, failed, mechanical_system_prompt,
  first_choice, answered, request, clean_http, clean,
}

-- One request at most, whose system message is the constant and whose user message is the text.
abbrev pub AreConstant : Text → List Request → Type 0
AreConstant raw [] = Unit {0}
AreConstant raw (r ∷ []) = (r.system ≡ mechanical_system_prompt) × (r.user ≡ raw)
AreConstant raw (r ∷ r' ∷ rs) = ⊥

abbrev pub IsText : Text → List Request → Cleaned → Type 0
IsText raw rs (failed err) = Unit {0}
IsText raw [] (text t) = t ≡ raw
IsText raw (r ∷ rs) (text t) = is_empty t ≡ false

pub record IsSafe (raw : Text) (r : Cleaned × List Request) : Type 0 where
  pub constant : AreConstant raw r.1
  pub result : IsText raw r.1 r.0

first_choice-IsText :
    (u : Unicode) (raw : Text) (r : Request) (body : List ℕ) (o : Option (List Text))
    → IsText raw (r ∷ []) (first_choice u body o)
unfolding first_choice
first_choice-IsText u raw r body none = tt
first_choice-IsText u raw r body (some []) = tt
first_choice-IsText u raw r body (some (content ∷ choices)) =
    if_intro (IsText raw (r ∷ [])) (is_empty (trim_space u content)) (λ _. tt) (λ h. h)

answered-IsText :
    (u : Unicode) (j : Json) (raw : Text) (r : Request) (reply : Reply)
    → IsText raw (r ∷ []) (answered u j reply)
unfolding answered
answered-IsText u j raw r not_built = tt
answered-IsText u j raw r not_posted = tt
answered-IsText u j raw r not_read = tt
answered-IsText u j raw r (response code body) =
    let read = take 1_048_576 body in
    if_intro (IsText raw (r ∷ [])) (not (code / 100 == 2)) (λ _. tt)
      (λ _. first_choice-IsText u raw r read (j.choices read))

module _ (u : Unicode) (j : Json) (serve : Request → Reply) where
  clean_http-IsSafe :
      (h : HttpCleaner) (raw : Text) (p : Profile) → IsSafe raw (clean_http u j serve h raw p)
  unfolding clean_http request
  clean_http-IsSafe h raw passthrough = record { constant = tt; result = refl }
  clean_http-IsSafe h raw (other p) = record { constant = tt; result = tt }
  clean_http-IsSafe h raw mechanical =
      if_intro (IsSafe raw) (is_empty (trim_space u raw))
        (λ _. record { constant = tt; result = refl })
        (λ _. record {
          constant = (refl, refl);
          result = answered-IsText u j raw (request h raw) (serve (request h raw));
        })

  -- A call makes one request at most, with the constant system message and the text as the user's.
  -- What it returns without an error is the text itself if it made none, and else is not
  -- empty.
  pub clean-IsSafe : (c : Cleaner) (raw : Text) (p : Profile) → IsSafe raw (clean u j serve c raw p)
  unfolding clean
  clean-IsSafe passes raw p = record { constant = tt; result = refl }
  clean-IsSafe (http h) raw p = clean_http-IsSafe h raw p
