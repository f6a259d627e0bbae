-- ===== src/HttpTypes/Request.antt =====
-- http-types/src/operation.rs, `Operation` and its credentials, and http-types/src/handler.rs, the
-- chain of handlers. An identifier is made by `into` from what the caller has. A handler takes the
-- state that it works on and returns the next.
use solid_community_rs.Prelude.{Bool, List, [], ◌∷◌, Option, none, some, Text, text, is_some}
use solid_community_rs.HttpTypes.Error
use solid_community_rs.HttpTypes.Error.{SolidError}
use solid_community_rs.HttpTypes.Identifier.{ResourceIdentifier}
use solid_community_rs.HttpTypes.Operation as Methods
use solid_community_rs.HttpTypes.Operation.{HttpMethod, AccessMode}
use solid_community_rs.HttpTypes.Preferences.{ContentPreferences}
use solid_community_rs.HttpTypes.Representation.{Representation}

pub record AgentCredentials : Type 0 where
  pub web_id : Option Text
  pub client_id : Option Text

unfoldable pub anonymous : AgentCredentials
anonymous = record { web_id = none; client_id = none }

unfoldable pub is_authenticated : AgentCredentials → Bool
is_authenticated c = is_some c.web_id

pub record Operation (F : Type 0) : Type 0 where
  pub method : HttpMethod
  pub target : ResourceIdentifier
  pub body : Option Representation
  pub preferences : ContentPreferences F
  pub credentials : AgentCredentials

-- `ContentPreferences::default`
abbrev pub no_preferences : {F : Type 0} → ContentPreferences F
no_preferences = record { type_preferences = [] }

module _ {F : Type 0} where
  unfoldable pub read : HttpMethod → ResourceIdentifier → ContentPreferences F → Operation F
  unfolding anonymous
  read method target preferences = record {
    method = method;
    target = target;
    body = none;
    preferences = preferences;
    credentials = anonymous;
  }

  unfoldable pub write : HttpMethod → ResourceIdentifier → Representation → Operation F
  unfolding anonymous
  write method target body = record {
    method = method;
    target = target;
    body = some body;
    preferences = no_preferences;
    credentials = anonymous;
  }

  unfoldable pub is_write : Operation F → Bool
  unfolding Methods.is_write
  is_write op = Methods.is_write op.method

  unfoldable pub required_access_modes : Operation F → List AccessMode
  unfolding Methods.required_access_modes
  required_access_modes op = Methods.required_access_modes op.method

-- A result of a handler.
pub data Handled (R : Type 0) : Type 0 where
  response : R → Handled R
  failure : SolidError → Handled R

-- `OperationHttpHandler::handle_operation`
abbrev pub OperationHttpHandler : Type 0 → Type 0 → Type 0 → Type 0
OperationHttpHandler F R S = Operation F → S → Handled R × S

-- `WaterfallHandler::handle_operation`: the loop returns in its first round.
unfoldable pub waterfall :
    {F R S : Type 0} → List (OperationHttpHandler F R S) → OperationHttpHandler F R S
waterfall [] op s =
    (failure (Error.method_not_allowed (text "No handler accepted the operation")), s)
waterfall (handler ∷ _) op s = handler op s
