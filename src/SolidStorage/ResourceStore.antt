-- ===== src/SolidStorage/ResourceStore.antt =====
-- solid-storage/src/resource_store.rs: the interface of a store of resources, and its decorators.
-- A URL is its text, an operation takes the state of the store and returns the next, and
-- `Preferences` stands for the weights of content types, which are floating-point numbers.
use solid_community_rs.Prelude.{
  ℕ, ◌≡◌, refl, ap, ◌∙◌, Bool, true, false, List, [], ◌∷◌, Text, text, if◌then◌else◌,
}
use solid_community_rs.Prelude.HashMap.{HashMap}

-- solid-storage/src/error.rs
pub data StorageError : Type 0 where
  not_found forbidden not_implemented : Text → StorageError
  already_expired : StorageError
  io json internal : Text → StorageError

pub data Result (A : Type 0) : Type 0 where
  ok : A → Result A
  err : StorageError → Result A

pub record RepresentationBody : Type 0 where
  pub content_type : Text
  pub bytes : List ℕ

pub record Representation : Type 0 where
  pub identifier : Text
  pub body : RepresentationBody
  pub metadata : HashMap Text

pub record ChangeMetadata : Type 0 where
  pub activity : Text

abbrev pub ChangeMap : Type 0
ChangeMap = HashMap ChangeMetadata

-- The traits `ResourceSet` and `ResourceStore`.
pub record ResourceStore (Preferences S : Type 0) : Type 0 where
  pub has_resource : Text → S → Result Bool × S
  pub get_representation : Text → Preferences → S → Result Representation × S
  pub add_resource : Text → Representation → S → Result ChangeMap × S
  pub set_representation : Text → Representation → S → Result ChangeMap × S
  pub delete_resource : Text → S → Result ChangeMap × S
  pub modify_resource : Text → List ℕ → S → Result ChangeMap × S

abbrev pub rejected : {A : Type 0} → Text → Result A
rejected method = err (not_implemented method)

abbrev pub read_only_error : Result ChangeMap
read_only_error = err (forbidden (text "Store is read-only"))

module _ {Preferences S : Type 0} where
  -- `BaseResourceStore`: every call is rejected.
  unfoldable pub base : ResourceStore Preferences S
  base = record {
    has_resource = λ _ s. (rejected (text "BaseResourceStore::has_resource"), s);
    get_representation = λ _ _ s. (rejected (text "BaseResourceStore::get_representation"), s);
    add_resource = λ _ _ s. (rejected (text "BaseResourceStore::add_resource"), s);
    set_representation = λ _ _ s. (rejected (text "BaseResourceStore::set_representation"), s);
    delete_resource = λ _ s. (rejected (text "BaseResourceStore::delete_resource"), s);
    modify_resource = λ _ _ s. (rejected (text "BaseResourceStore::modify_resource"), s);
  }

  -- `PassthroughStore`: every call is forwarded.
  unfoldable pub passthrough : ResourceStore Preferences S → ResourceStore Preferences S
  passthrough source = record {
    has_resource = λ url s. source.has_resource url s;
    get_representation = λ url preferences s. source.get_representation url preferences s;
    add_resource = λ url representation s. source.add_resource url representation s;
    set_representation = λ url representation s. source.set_representation url representation s;
    delete_resource = λ url s. source.delete_resource url s;
    modify_resource = λ url patch s. source.modify_resource url patch s;
  }

  -- `ReadOnlyStore`: reads are forwarded, writes are rejected.
  unfoldable pub read_only : ResourceStore Preferences S → ResourceStore Preferences S
  read_only source = record {
    has_resource = λ url s. source.has_resource url s;
    get_representation = λ url preferences s. source.get_representation url preferences s;
    add_resource = λ _ _ s. (read_only_error, s);
    set_representation = λ _ _ s. (read_only_error, s);
    delete_resource = λ _ s. (read_only_error, s);
    modify_resource = λ _ _ s. (read_only_error, s);
  }

-- The calls of the interface.
pub data Call (Preferences : Type 0) : Type 0 where
  has : Text → Call Preferences
  fetch : Text → Preferences → Call Preferences
  add set : Text → Representation → Call Preferences
  delete : Text → Call Preferences
  modify : Text → List ℕ → Call Preferences

pub data Answer : Type 0 where
  found : Result Bool → Answer
  fetched : Result Representation → Answer
  changed : Result ChangeMap → Answer

abbrev pub changes : {Preferences : Type 0} → Call Preferences → Bool
changes (has _) = false
changes (fetch _ _) = false
changes _ = true

module _ {Preferences S : Type 0} where
  unfoldable pub call : ResourceStore Preferences S → Call Preferences → S → Answer × S
  call store (has url) s = let (r, s') = store.has_resource url s in (found r, s')
  call store (fetch url p) s = let (r, s') = store.get_representation url p s in (fetched r, s')
  call store (add url rep) s = let (r, s') = store.add_resource url rep s in (changed r, s')
  call store (set url rep) s = let (r, s') = store.set_representation url rep s in (changed r, s')
  call store (delete url) s = let (r, s') = store.delete_resource url s in (changed r, s')
  call store (modify url patch) s =
      let (r, s') = store.modify_resource url patch s in (changed r, s')

  unfoldable pub calls : ResourceStore Preferences S → List (Call Preferences) → S → List Answer × S
  unfolding call
  calls store [] s = ([], s)
  calls store (c ∷ cs) s =
      let (a, s') = call store c s in let (rest, s'') = calls store cs s' in (a ∷ rest, s'')

  -- The reads of a store leave its state alone.
  pub record ReadsKeep (source : ResourceStore Preferences S) : Type 0 where
    pub kept : (c : Call Preferences) (s : S) → changes c ≡ false → (call source c s).1 ≡ s

  -- A call of the read-only store that would change anything is answered by the error Forbidden
  -- and changes nothing, and any other call is answered as by the source.
  call-read_only :
      (source : ResourceStore Preferences S) (c : Call Preferences) (s : S)
      → call (read_only source) c s
        ≡ (if changes c then (changed read_only_error, s) else call source c s)
  unfolding call read_only
  call-read_only source (has url) s = refl
  call-read_only source (fetch url p) s = refl
  call-read_only source _ s = refl

  call_keeps :
      (source : ResourceStore Preferences S) (c : Call Preferences) (s : S)
      → ReadsKeep source
      → (call (read_only source) c s).1 ≡ s
  unfolding call read_only
  call_keeps source (has url) s keep = keep.kept (has url) s refl
  call_keeps source (fetch url p) s keep = keep.kept (fetch url p) s refl
  call_keeps source _ s keep = refl

  -- Over a source whose reads keep its state, no sequence of calls of the read-only store changes
  -- the state, even through further layers that pass on.
  pub read_only_keeps_state :
      (source : ResourceStore Preferences S) (cs : List (Call Preferences)) (s : S)
      → ReadsKeep source
      → (calls (passthrough (read_only source)) cs s).1 ≡ s
  unfolding calls passthrough
  read_only_keeps_state source [] s keep = refl
  read_only_keeps_state source (c ∷ cs) s keep =
      ap (λ t. (calls (passthrough (read_only source)) cs t).1) (call_keeps source c s keep)
      ∙ read_only_keeps_state source cs s keep
