-- ===== src/IntegrationTests/Tidy.antt =====
-- Cases that pass leave the server as they found it, but for what they were allowed to change.
use solid_community_rs.Prelude.{◌≡◌, List, [], ◌∷◌, Option, none, some, Text, All}
use solid_community_rs.IntegrationTests.Client.{SolidClient, and_then}
use solid_community_rs.IntegrationTests.Runner.{Case}
use solid_community_rs.IntegrationTests.Runner.Passing.{IsPassing}

-- What the requests for a path do to two conditions on the state: `P` is to hold between the cases,
-- and `Q` while a case has something stored at the path, which a DELETE clears away.
pub record IsTidy {S : Type 0} (c : SolidClient S) (path : Text) (IsType : Text → Type 0)
    (P Q : S → Type 0) : Type 0 where
  pub began : (s : S) → P s → Q s
  pub put_keeps : (b t : Text) (s : S) → IsType t → Q s → Q (c.put path b t s).1
  pub get_keeps : (s : S) → Q s → Q (c.get path s).1
  pub got_keeps : (s : S) → P s → P (c.get path s).1
  pub accept_keeps : (a : Text) (s : S) → Q s → Q (c.get_accept path a s).1
  pub patch_keeps : (b t : Text) (s : S) → Q s → Q (c.patch path b t s).1
  pub delete_clears : (s : S) → Q s → P (c.delete path s).1

-- A case that keeps the condition whenever it passes.
abbrev pub Keeps : {S : Type 0} → (S → Type 0) → (S → Option Text × S) → Type 0
Keeps {S} P run = (s : S) → P s → (run s).0 ≡ none → P (run s).1

-- A case that passed got past each of its assertions.
pub passed_on :
    {S : Type 0} (P : S → Type 0) (o : Option Text) (next : S → Option Text × S) (s : S)
    → ((next s).0 ≡ none → P (next s).1)
    → (and_then o next s).0 ≡ none
    → P (and_then o next s).1
passed_on P none next s k h = k h
passed_on P (some e) next s k h = cc h

pub keeping-IsPassing :
    {S : Type 0} (P : S → Type 0) (cs : List (Case S))
    → ((s : S) → P s → All (λ x. (x.run s).0 ≡ none) cs)
    → All (λ x. Keeps P x.run) cs
    → All (IsPassing P) cs
keeping-IsPassing P [] pass keep = tt
keeping-IsPassing P (c ∷ cs) pass (here, keep) = (
  λ s p. let ok = (pass s p).0 in (ok, here s p ok),
  keeping-IsPassing P cs (λ s p. (pass s p).1) keep,
)
