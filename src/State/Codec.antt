-- ===== src/State/Codec.antt =====
-- The format of the state file (src/state.rs). The JSON library is a parameter.
pub mod Laws
pub mod RoundTrip
mod Tests
use byssus.Base.{
  ℕ, ◌&&◌, Bool, not, Option, none, some, List, [], ◌∷◌, ◌++◌, all, contains, is_empty,
  if◌then◌else◌, Result, ok, err, map_err, ◌>>=◌, Text, text, slash, split, ◌==◌, nat_eq, list_eq,
}
use byssus.Name.{Name, GroupId, NameError, from_bytes, parse, display}
use byssus.Config.{AbsPath, path_text}
use byssus.Config.Paths.{AbsPathError, new}
use byssus.State
use byssus.State.{State, MountRecord, RecordKey, key, default}

abbrev pub state_version : ℕ
state_version = 1

pub record StateDocument : Type 0 where
  pub version : ℕ
  pub mounts : List MountRecord

-- The program's own serialization of these types, which the derived one of a document calls.
pub record Serializers : Type 0 where
  pub name : Name → Text
  pub group : GroupId → Text
  pub path : AbsPath → Text

pub record Deserializers : Type 0 where
  pub name : Text → Result Text Name
  pub group : Text → Result Text GroupId
  pub path : Text → Result Text AbsPath

abbrev serialize_name : Name → Text
serialize_name n = n.str

abbrev serialize_group : GroupId → Text
serialize_group g = display g

abbrev serialize_path : AbsPath → Text
serialize_path p = path_text p

abbrev pub serializers : Serializers
serializers = record { name = serialize_name; group = serialize_group; path = serialize_path }

-- What the code uses of `serde_json`, and `escape_debug`. The derived code for a document is the
-- library's as well; the types that have code of their own are passed to it.
pub record Json : Type 1 where
  pub Value : Type 0
  pub from_slice : Text → Result Text Value
  -- the field "version", if there is one, and its value, if that is an unsigned integer
  pub version : Value → Option (Option ℕ)
  pub from_value : Deserializers → Value → Result Text StateDocument
  pub to_vec_pretty : Serializers → StateDocument → Text
  -- `Error::custom`, of the message of an error
  pub custom_name : NameError → Text
  pub custom_path : AbsPathError → Text
  pub escape_debug : Text → Text

pub data DecodeError : Type 0 where
  unsupported_version : ℕ → DecodeError
  malformed : Text → DecodeError

abbrev pub is_clean_component : Text → Bool
is_clean_component c = not (is_empty c) && (not (c == text ".") && not (c == text ".."))

-- A non-empty relative path with no empty, `.` or `..` components.
unfoldable pub is_clean_relative : Text → Bool
unfolding split
is_clean_relative path =
    not (is_empty path) && (not (contains path 0) && all is_clean_component (split slash path))

-- `Display` of a key
abbrev key_text : RecordKey → Text
key_text k = display k.group ++ (slash ∷ k.name.str)

module _ (json : Json) where
  open json use {
    Value, from_slice, from_value, to_vec_pretty, custom_name, custom_path, escape_debug,
  }

  abbrev deserialize_name : Text → Result Text Name
  deserialize_name s = map_err custom_name (from_bytes s)

  abbrev deserialize_group : Text → Result Text GroupId
  deserialize_group s = map_err custom_name (parse s)

  abbrev deserialize_path : Text → Result Text AbsPath
  deserialize_path s = map_err custom_path (new s)

  abbrev pub deserializers : Deserializers
  deserializers = record {
    name = deserialize_name;
    group = deserialize_group;
    path = deserialize_path;
  }

  unfoldable pub encode : State → Text
  unfolding State.records
  encode s =
      to_vec_pretty serializers (record { version = state_version; mounts = State.records s })
      ++ (10 ∷ [])

  abbrev pub check_path : Text → MountRecord → Text → Result DecodeError (Unit {0})
  check_path field r path =
      if is_clean_relative path
      then ok tt
      else err (
          malformed (
            text "record "
            ++ (key_text (key r)
                ++ (text ": invalid "
                    ++ (field ++ (text " path '" ++ (escape_debug path ++ text "'")))))))

  abbrev pub new_only : RecordKey → State × Option MountRecord → Result DecodeError State
  new_only k (s, none) = ok s
  new_only k (s, some previous) = err (malformed (text "duplicate record for " ++ key_text k))

  unfoldable pub add_record : State → MountRecord → Result DecodeError State
  unfolding State.insert is_clean_relative display
  add_record s r = do
    u ← check_path (text "source") r r.source
    v ← check_path (text "target") r r.target
    new_only (key r) (State.insert s r)

  unfoldable pub add_records : State → List MountRecord → Result DecodeError State
  unfolding add_record
  add_records s [] = ok s
  add_records s (r ∷ rs) = do s' ← add_record s r; add_records s' rs

  abbrev pub declared : Option (Option ℕ) → Result DecodeError ℕ
  declared none = err (malformed (text "missing 'version'"))
  declared (some none) = err (malformed (text "'version' is not an unsigned integer"))
  declared (some (some n)) = ok n

  abbrev pub check_version : ℕ → Result DecodeError (Unit {0})
  check_version n = if n == state_version then ok tt else err (unsupported_version n)

  unfoldable pub decode : Text → Result DecodeError State
  unfolding add_records
  decode bytes = do
    value ← map_err malformed (from_slice bytes)
    n ← declared (json.version value)
    u ← check_version n
    doc ← map_err malformed (from_value deserializers value)
    add_records default doc.mounts
