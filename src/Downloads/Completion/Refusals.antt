-- ===== src/Downloads/Completion/Refusals.antt =====
-- What an observation of the files can raise.
use tuntu.Prelude.{ℕ, ◌≡◌, List, [], ◌∷◌, Text, insert_text, arith, inl, inr}
use tuntu.Errors.{Error, ok, err, value_error, ◌>>=◌, >>=-eq-err}
use tuntu.Downloaders.Snapshot.{DirectorySnapshot}
use tuntu.Downloads.Completion.{
  CompletionState, observe_completion, changed_files, owners_after, top_level_owners,
  top_level_owner, owner_within,
}

top_level_owner-error :
    (path file : Text) (e : Error) → top_level_owner path file ≡ err e → e ≡ value_error
unfolding top_level_owner owner_within
top_level_owner-error path file e h = ground (arith, h)

top_level_owners-error :
    (path : Text) (changed : List (Text × ℕ)) (e : Error)
    → top_level_owners path changed ≡ err e
    → e ≡ value_error
unfolding top_level_owners
top_level_owners-error path [] e h = absurd (cc)
top_level_owners-error path ((file, size) ∷ rest) e h =
    elim (>>=-eq-err (top_level_owner path file)
      (λ owner. top_level_owners path rest >>= λ owners. ok (insert_text owner owners)) h) [
        | inl bad ↦ top_level_owner-error path file e bad
        | inr (owner, _, k) ↦
            elim (>>=-eq-err (top_level_owners path rest) (λ owners. ok (insert_text owner owners))
              k) [
                | inl bad ↦ top_level_owners-error path rest e bad
                | inr (owners, _, done) ↦ absurd (cc)
              ]
      ]

owners_after-error :
    (s : CompletionState) (changed : List (Text × ℕ)) (e : Error)
    → owners_after s changed ≡ err e
    → e ≡ value_error
unfolding owners_after
owners_after-error s changed e h =
    ground (arith, top_level_owners-error s.destination_path changed e, h)

pub observe_completion-error :
    (s : CompletionState) (current : DirectorySnapshot) (e : Error)
    → observe_completion s current ≡ err e
    → e ≡ value_error
unfolding observe_completion
observe_completion-error s current e h =
    ground (arith, owners_after-error s (changed_files s current) e, h)
