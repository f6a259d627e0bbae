-- ===== src/IntegrationTests/Tests.antt =====
-- The report of a run with one case that passes and one that fails, and the suites with requests
-- that carry their parts unchanged.
mod FullRun
use solid_community_rs.Prelude.{
  ◌++◌, ◌⊎◌, ◌↔◌, inl, trim_end_matches, Option, Text, ltb, leb, ◌&&◌, true, Bool, arith, text_eq,
  unwrap_or, drop, All, if◌then◌else◌, slash, ℕ, suc, ◌+◌, ◌≡◌, refl, false, List, [], ◌∷◌, none,
  some, text,
}
use mathlib.Core.Option
use solid_community_rs.Prelude.HashMap
use solid_community_rs.Prelude.Split.{utf8, utf8_char}
use solid_community_rs.ServerCore.Http.{HeaderValues, Headers, Request, header, status_only}
use solid_community_rs.ServerCore.Accept.{any_type}
use solid_community_rs.ServerCore.Store
use solid_community_rs.ServerCore.Store.{LdpStore, auto_container}
use solid_community_rs.ServerCore.Handlers.{resolve_path, header_text}
use solid_community_rs.ServerCore.Handlers.Safety.{new-IsSound}
use solid_community_rs.IntegrationTests.ResourceCrud.{cases}
use solid_community_rs.IntegrationTests.Client.{SolidClient, accept}
use solid_community_rs.IntegrationTests.Serves.{is_ascii}
use solid_community_rs.IntegrationTests.Health
use solid_community_rs.IntegrationTests.Health.EndToEnd.{health_passes_iff}
use solid_community_rs.IntegrationTests.Containers
use solid_community_rs.IntegrationTests.Containers.EndToEnd.{containers_pass}
use solid_community_rs.IntegrationTests.Negotiation
use solid_community_rs.IntegrationTests.ErrorResponses
use solid_community_rs.IntegrationTests.ErrorResponses.Passing.{error_responses_pass}
use solid_community_rs.IntegrationTests.Server.{Transport, IsFaithful, client}
use solid_community_rs.IntegrationTests.Server.Asked.{place}
use solid_community_rs.IntegrationTests.ResourceCrud.EndToEnd.{resource_crud_passes}
use solid_community_rs.IntegrationTests.AllSuites.{run_tests, exit_code}
use solid_community_rs.IntegrationTests.AllSuites.Outcome.{run_tests_fails, crud_run_succeeds}
use solid_community_rs.IntegrationTests.Server.Laws.{look}
use solid_community_rs.IntegrationTests.Runner
use solid_community_rs.IntegrationTests.Runner.{Case, Suite, Line, plan, totals, run}

abbrev passes : Case ℕ
passes = record { name = text "PUT creates a document"; run = λ n. (none, suc n) }

abbrev fails : Case ℕ
fails = record {
  name = text "DELETE returns 204";
  run = λ n. (some (text "expected HTTP 204, got 404"), n);
}

abbrev suites : List (Suite ℕ)
suites =
    record { name = text "resource-crud"; cases = passes ∷ fails ∷ [] }
    ∷ record { name = text "health"; cases = passes ∷ [] }
    ∷ []

some_failed : (run suites 0).0 ≡ false
unfolding run Runner.run_suites Runner.run_cases
some_failed = refl

abbrev pub visible : Text → Bool
visible [] = true
visible (c ∷ t) = leb 32 c && ltb c 127 && visible t

abbrev pub read_value : Text → Option Text
read_value v = if visible v then some v else none

pub read_value_valid : (v t : Text) → read_value v ≡ some t → visible t ≡ true
read_value_valid v t h = ground arith

-- Header values of printable ASCII.
abbrev pub ascii : HeaderValues
ascii = record {
  to_str = read_value;
  is_valid = visible;
  to_str_valid = read_value_valid;
  turtle_valid = refl;
  octets_valid = refl;
}

-- The router has a route for the root, where it extracts nothing.
abbrev pub tail : Text → Option Text
tail path = if text_eq path (text "/") then none else some (drop 1 path)

abbrev pub carry : Text → Text → Option (List ℕ) → Headers → Request
carry method path body hs = record {
  method = method;
  path = path;
  wildcard = tail path;
  headers = λ name. header name hs;
  body = some (unwrap_or body []);
}

abbrev pub direct : Transport
direct = record { arrive = carry; decode = λ bytes. bytes }

utf8_ascii : (t : Text) → is_ascii t ≡ true → utf8 t ≡ t
unfolding utf8 utf8_char
utf8_ascii [] h = refl
utf8_ascii (c ∷ t) h = ground (arith, utf8_ascii t)

header_carried :
    (m p n v : Text) (b : Option (List ℕ)) (hs : Headers)
    → header n hs ≡ some v
    → read_value v ≡ some v
    → header_text ascii (carry m p b hs) n ≡ some v
unfolding header_text Option.bind
header_carried m p n v b hs there readable = rw there readable

accept_uncarried :
    (m p : Text) (b : Option (List ℕ)) (hs : Headers)
    → header accept hs ≡ none
    → let a = header_text ascii (carry m p b hs) accept in (a ≡ none) ⊎ (a ≡ some any_type)
unfolding header_text Option.bind
accept_uncarried m p b hs absent = rw absent (inl refl)

pub direct-IsFaithful : IsFaithful ascii direct tail
direct-IsFaithful = record {
  method_sent = λ m p b hs. refl;
  path_sent = λ m p b hs. refl;
  body_sent = λ m p b hs. refl;
  header_sent = header_carried;
  accept_unsent = accept_uncarried;
  decoded = utf8_ascii;
}

abbrev pub digits : ℕ → Text
digits n = (48 + n) ∷ []

pub nothing_at :
    (k : Text) → text_eq (slash ∷ []) k ≡ false → Store.key k ≡ k → Store.get k Store.new ≡ none
unfolding Store.get Store.new HashMap.get HashMap.insert HashMap.empty text_eq
nothing_at k other same = rw same (ground (arith, other))

abbrev pub suite_client : SolidClient LdpStore
suite_client = client ascii (status_only 405) (text "new") direct

-- UUIDs that all differ.
abbrev pub drawn : Text → ℕ → Text
drawn suite n = suite ++ digits n

health_passes_iff_example :
    All (λ x. (x.run Store.new).0 ≡ none) (Health.cases suite_client digits)
    ↔ (Store.exists Health.root Store.new ≡ true)
unfolding text_eq resolve_path
health_passes_iff_example =
    health_passes_iff ascii (status_only 405) (text "new") direct tail direct-IsFaithful digits
      Store.new (new-IsSound ascii) refl

error_responses_pass_example :
    All
      (λ x. (x.run Store.new).0 ≡ none)
      (ErrorResponses.cases suite_client digits (drawn (text "error-responses")))
unfolding text_eq resolve_path Store.key
error_responses_pass_example =
    error_responses_pass ascii (status_only 405) (text "new") direct tail direct-IsFaithful digits
      (drawn (text "error-responses")) Store.new refl refl
      (refl, nothing_at (ErrorResponses.unknown_path (drawn (text "error-responses") 0)) refl refl)
      refl
      (refl, nothing_at (ErrorResponses.nope_path (drawn (text "error-responses") 2)) refl refl)
      (refl, nothing_at (ErrorResponses.deep_path (drawn (text "error-responses") 3)) refl refl)

pub new_root : Store.get (text "/") Store.new ≡ some auto_container
unfolding Store.get Store.new Store.key HashMap.get HashMap.insert HashMap.empty text_eq
new_root = refl

containers_pass_example :
    All
      (λ x. (x.run Store.new).0 ≡ none)
      (Containers.cases suite_client digits (drawn (text "containers")))
unfolding text_eq resolve_path Containers.container_path Store.key trim_end_matches
containers_pass_example =
    containers_pass ascii (status_only 405) (text "new") direct tail direct-IsFaithful digits
      (drawn (text "containers")) Store.new auto_container refl refl refl new_root refl
      (refl, (refl, (refl, (refl, tt))))
      (nothing_at (Containers.container_path (drawn (text "containers") 1)) refl refl) refl
