-- ===== src/Protocol/Context.antt =====
-- The event context of packages/protocol/src/types.ts.
use spectro.Prelude.{ℕ, Option, List, Text}
use spectro.Protocol.Json.{Fields}

pub record SdkContext : Type 0 where
  pub name : Text
  pub version : Text

pub record SessionContext : Type 0 where
  pub id : Text
  pub started_at : Option ℕ

pub record UserContext : Type 0 where
  pub id : Option Text
  pub anonymous_id : Text
  pub traits : Option Fields

pub record PageContext : Type 0 where
  pub id : Text
  pub url : Text
  pub path : Text
  pub title : Option Text
  pub referrer : Option Text

pub data DeviceType : Type 0 where
  desktop mobile tablet unknown : DeviceType

pub record DeviceContext : Type 0 where
  pub type : Option DeviceType
  pub model : Option Text

-- `BrowserContext` and `OSContext`.
pub record NameVersion : Type 0 where
  pub name : Option Text
  pub version : Option Text

pub record TraceContext : Type 0 where
  pub trace_id : Option Text
  pub span_id : Option Text
  pub parent_span_id : Option Text

pub record EventContext : Type 0 where
  pub sdk : SdkContext
  pub project : Text
  pub environment : Text
  pub session : Option SessionContext
  pub user : Option UserContext
  pub page : Option PageContext
  pub device : Option DeviceContext
  pub browser : Option NameVersion
  pub os : Option NameVersion
  pub release : Option Text
  pub trace : Option TraceContext
  pub tags : Option (List (Text × Text))
