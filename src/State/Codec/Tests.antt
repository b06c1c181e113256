-- ===== src/State/Codec/Tests.antt =====
-- The codec at concrete inputs, with a JSON library that knows one document.
use byssus.Base.{
  ◌≡◌, refl, true, false, none, some, [], ◌∷◌, ◌++◌, if◌then◌else◌, ◌>>=◌, Result, ok, err, Text,
  text, split, ◌==◌, nat_eq, list_eq,
}
use byssus.Base.Map
use byssus.Name.{statically, from_bytes, parse}
use byssus.Config.Paths.{new}
use byssus.Config.{AbsPath}
use byssus.State
use byssus.State.{State, MountRecord, key}
use byssus.State.Codec.{
  Json, DecodeError, StateDocument, is_clean_relative, encode, decode, add_records, add_record,
}
use byssus.State.Codec.Laws.{IsSound, decode-IsSound}
use byssus.State.Codec.RoundTrip.{IsRead, document, decode-encode}

abbrev srv : AbsPath
srv = record { components = text "srv" ∷ [] }

abbrev mounted : MountRecord
mounted = record {
  group = statically (record { str = text "web" });
  name = record { str = text "zlib" };
  source_root = srv;
  source = text "src/zlib";
  target_root = srv;
  target = text "view/zlib";
  mnt_id = 7;
  mnt_id_unique = none;
  root_dev_major = 8;
  root_dev_minor = 1;
  root_ino = 99;
  read_only = true;
  noexec = true;
  nosymfollow = true;
  created_at = 0;
}

abbrev one : State
one = record { entries = (key mounted, mounted) ∷ [] }

abbrev written : Text
written = text "{}"

abbrev small : Json
small = record {
  Value = StateDocument;
  from_slice =
      λ bytes. if bytes == (written ++ (10 ∷ [])) then ok (document one) else err (text "EOF");
  version = λ doc. some (some doc.version);
  from_value = λ d doc. do
    name ← d.name (text "zlib")
    group ← d.group (text "web")
    root ← d.path (text "/srv")
    ok (record doc {
      mounts =
          record mounted { name = name; group = group; source_root = root; target_root = root }
          ∷ [];
    });
  to_vec_pretty = λ s doc. written;
  custom_name = λ e. text "invalid name";
  custom_path = λ e. text "invalid path";
  escape_debug = λ s. s;
}

read : Text → Result DecodeError State
unfolding decode add_records add_record is_clean_relative split encode State.records Map.values
    State.insert Map.insert Map.get from_bytes parse new
read = decode small

read-encode : decode small (encode small one) ≡ ok one
unfolding read
read-encode = refl

is_clean_relative_climbs : is_clean_relative (text "a/../b") ≡ false
unfolding read
is_clean_relative_climbs = refl

decode-IsSound_example : IsSound one
decode-IsSound_example = decode-IsSound small (encode small one) one read-encode

one-IsRead : IsRead small (document one)
unfolding read
one-IsRead = record { value = document one; reads = refl; has_version = refl; has_fields = refl }

one-IsSound : IsSound one
unfolding read
one-IsSound = record {
  keyed = record { keyed = (refl, tt); sorted = (tt, tt) };
  clean = ((refl, refl), tt);
}

decode-encode_example : decode small (encode small one) ≡ ok one
decode-encode_example = decode-encode small one one-IsRead one-IsSound
