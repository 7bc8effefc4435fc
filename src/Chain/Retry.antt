-- ===== src/Chain/Retry.antt =====
-- github.com/avast/retry-go is a parameter: `retry.Do` with `UntilSucceeded`, over the replies that
-- the attempts get. `none` means that the replies are used up and the loop is still retrying.
use chain_stresser.Common.{◌≡◌, refl, Option, none, some, List, [], ◌∷◌}

-- What one attempt returns: nil, an error to retry after, or an `Unrecoverable` one.
pub data Attempt (E : Type 0) : Type 0 where
  succeeded : Attempt E
  retryable : Attempt E
  unrecoverable : E → Attempt E

pub record Retry : Type 1 where
  pub until_succeeded :
      {S R E : Type 0} → (S → R → Attempt E × S) → S → List R → Option (Option E × S)
  pub no_replies :
      {S R E : Type 0} (f : S → R → Attempt E × S) (s : S) → until_succeeded f s [] ≡ none
  pub stops :
      {S R E : Type 0} (f : S → R → Attempt E × S) (s : S) (r : R) (rs : List R)
      → (f s r).0 ≡ succeeded
      → until_succeeded f s (r ∷ rs) ≡ some (none, (f s r).1)
  pub repeats :
      {S R E : Type 0} (f : S → R → Attempt E × S) (s : S) (r : R) (rs : List R)
      → (f s r).0 ≡ retryable
      → until_succeeded f s (r ∷ rs) ≡ until_succeeded f (f s r).1 rs
  pub gives_up :
      {S R E : Type 0} (f : S → R → Attempt E × S) (s : S) (r : R) (rs : List R) (e : E)
      → (f s r).0 ≡ unrecoverable e
      → until_succeeded f s (r ∷ rs) ≡ some (some e, (f s r).1)

-- A loop that behaves as documented, to show that the laws can hold.
abbrev after : {S E : Type 0} → Attempt E → S → (S → Option (Option E × S)) → Option (Option E × S)
after succeeded s next = some (none, s)
after retryable s next = next s
after (unrecoverable e) s next = some (some e, s)

unfoldable pub retry_loop :
    {S R E : Type 0} → (S → R → Attempt E × S) → S → List R → Option (Option E × S)
retry_loop f s [] = none
retry_loop f s (r ∷ rs) = after (f s r).0 (f s r).1 (λ s'. retry_loop f s' rs)

module _ {S R E : Type 0} (f : S → R → Attempt E × S) (s : S) where
  pub retry_loop-nil : retry_loop f s [] ≡ none
  unfolding retry_loop
  retry_loop-nil = refl

  module _ (r : R) (rs : List R) where
    pub retry_loop-succeeded :
        (f s r).0 ≡ succeeded → retry_loop f s (r ∷ rs) ≡ some (none, (f s r).1)
    unfolding retry_loop
    retry_loop-succeeded h = rw h

    pub retry_loop-retryable :
        (f s r).0 ≡ retryable → retry_loop f s (r ∷ rs) ≡ retry_loop f (f s r).1 rs
    unfolding retry_loop
    retry_loop-retryable h = rw h

    pub retry_loop-unrecoverable :
        (e : E) → (f s r).0 ≡ unrecoverable e → retry_loop f s (r ∷ rs) ≡ some (some e, (f s r).1)
    unfolding retry_loop
    retry_loop-unrecoverable e h = rw h

abbrev pub documented : Retry
documented = record {
  until_succeeded = retry_loop;
  no_replies = retry_loop-nil;
  stops = retry_loop-succeeded;
  repeats = retry_loop-retryable;
  gives_up = retry_loop-unrecoverable;
}
