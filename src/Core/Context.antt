-- ===== src/Core/Context.antt =====
-- packages/core/src/context.ts: the context of an event from the client's options. The inputs are
-- those of packages/types/src/index.ts.
use spectro.Prelude.{Option, none, some, List, [], ◌∷◌, Text, text, or_else}
use spectro.Protocol.Context.{
  SdkContext, SessionContext, UserContext, PageContext, DeviceContext, NameVersion, TraceContext,
  EventContext,
}
use spectro.Protocol.Json.{Fields}
use spectro.Core.Normalize.{Value, Heap, Result, ok, ◌>>=◌, normalize_properties, normalize_tags}

pub record UserInput : Type 0 where
  pub id : Option Text
  pub anonymous_id : Text
  pub traits : Option Value

pub record ClientContextInput : Type 0 where
  pub session : Option SessionContext
  pub user : Option UserInput
  pub page : Option PageContext
  pub device : Option DeviceContext
  pub browser : Option NameVersion
  pub os : Option NameVersion
  pub trace : Option TraceContext
  pub tags : Option (List (Text × Text))

abbrev pub no_context : ClientContextInput
no_context = record {
  session = none;
  user = none;
  page = none;
  device = none;
  browser = none;
  os = none;
  trace = none;
  tags = none;
}

-- The options that a context is made of.
pub record ClientOptions : Type 0 where
  pub project_id : Text
  pub environment : Text
  pub release : Option Text
  pub sdk : Option SdkContext
  pub context : ClientContextInput

abbrev later {ℓ} : {A : Type ℓ} → Option A → Option A → Option A
later a none = a
later a (some b) = some b

-- `{ ...a, ...b }`, no field being given as undefined.
pub overlay : ClientContextInput → ClientContextInput → ClientContextInput
overlay a b = record {
  session = later a.session b.session;
  user = later a.user b.user;
  page = later a.page b.page;
  device = later a.device b.device;
  browser = later a.browser b.browser;
  os = later a.os b.os;
  trace = later a.trace b.trace;
  tags = later a.tags b.tags;
}

abbrev default_sdk : SdkContext
default_sdk = record { name = text "@spectro/browser"; version = text "0.1.0-alpha.0" }

-- The empty text counts as no release.
abbrev when_not_empty : Option Text → Option Text
when_not_empty none = none
when_not_empty (some []) = none
when_not_empty (some (c ∷ s)) = some (c ∷ s)

module _ (lower : Text → Text) (heap : Heap) where
  abbrev traits_of : Option Value → Result (Option Fields)
  traits_of none = ok none
  traits_of (some v) = do fs ← normalize_properties lower heap v; ok (some fs)

  abbrev user_of : Option UserInput → Result (Option UserContext)
  user_of none = ok none
  user_of (some u) = do
    traits ← traits_of u.traits
    ok (some (record { id = u.id; anonymous_id = u.anonymous_id; traits = traits }))

  abbrev tags_of : Option (List (Text × Text)) → Option (List (Text × Text))
  tags_of none = none
  tags_of (some tags) = some (normalize_tags lower tags)

  pub create_event_context : ClientOptions → Result EventContext
  create_event_context o = do
    user ← user_of o.context.user
    ok (record {
      sdk = or_else o.sdk default_sdk;
      project = o.project_id;
      environment = o.environment;
      session = o.context.session;
      user = user;
      page = o.context.page;
      device = o.context.device;
      browser = o.context.browser;
      os = o.context.os;
      release = when_not_empty o.release;
      trace = o.context.trace;
      tags = tags_of o.context.tags;
    })
