-- ===== src/Store/Sample.antt =====
-- A codec whose bytes are the documents as they were encoded, and the parsers of a world with a few texts. No
-- code of the daemon: the tests run on them.
use iron_link.Prelude.{
  String, ◌==◌, ◌||◌, refl, Bool-cases, inl, inr, Option, none, some, Result, ok, err, ok-injective,
  if◌then◌else◌, ℕ,
}
use iron_link.Api.Settings.{Settings}
use iron_link.Api.Reply.{PersistedEntry}
use iron_link.Store.Profile.{Profile}
use iron_link.Routing
use iron_link.Store.Reread.{Rereading, reread}
use iron_link.Store.Files.{Codec, IsCodec}
use iron_link.Store.Settings.{Net}

pub data Bytes : Type 0 where
  profile_bytes : Profile → Bytes
  state_bytes : Option String → Bytes
  session_bytes : PersistedEntry → Bytes
  settings_bytes : Settings → Bytes

-- A node is read back as it was, and so is a config, but for an id that it lacks.
abbrev read_back : Routing.Config → Routing.Config
read_back r = if r.id == "" then record r { id = "minted" } else r

abbrev pub as_written : Rereading
as_written = record {
  node = λ n. n;
  config = read_back;
  node_id = λ n. refl;
  config_name = λ r. elim (Bool-cases (r.id == "")) [ inl h ↦ rw h refl | inr h ↦ rw h refl ];
  config_id = λ r h. rw h refl;
  config_minted = λ r. elim (Bool-cases (r.id == "")) [ inl h ↦ rw h refl | inr h ↦ rw h h ];
}

abbrev profile_in : Bytes → Result String Profile
profile_in (profile_bytes p) = ok (reread as_written p)
profile_in _ = err "no profile"

abbrev version_in : Bytes → Result String ℕ
version_in (profile_bytes p) = ok p.schema_version
version_in _ = err "no profile"

abbrev state_in : Bytes → Result String (Option String)
state_in (state_bytes a) = ok a
state_in _ = err "no state"

abbrev session_in : Bytes → Result String PersistedEntry
session_in (session_bytes e) = ok e
session_in _ = err "no session"

abbrev settings_in : Settings → Bytes → Result String Settings
settings_in base (settings_bytes s) = ok s
settings_in base _ = err "no settings"

abbrev pub plain : Codec Bytes
plain = record {
  encode_profile = λ p. ok (profile_bytes p);
  decode_profile = profile_in;
  probe_version = version_in;
  encode_state = λ a. ok (state_bytes a);
  decode_state = state_in;
  encode_session = λ e. ok (session_bytes e);
  decode_session = session_in;
  encode_settings = λ s. ok (settings_bytes s);
  decode_settings = settings_in;
}

abbrev pub plain-IsCodec : IsCodec plain
plain-IsCodec = record {
  rereading = as_written;
  profile = λ p raw h. rw (← ok-injective h) refl;
  version = λ p raw h. rw (← ok-injective h) refl;
  state = λ a raw h. rw (← ok-injective h) refl;
  session = λ e raw h. rw (← ok-injective h) refl;
  settings = λ base s raw h. rw (← ok-injective h) refl;
}

abbrev pub few_texts : Net
few_texts = record {
  parses_addr = λ s. s == "8.8.8.8" || s == "1.1.1.1";
  parses_prefix = λ s. s == "169.254.0.0/16" || s == "fc00::/7" || s == "fe80::/10";
  parse_url = λ s.
      if s == "https://www.gstatic.com/generate_204"
      then some ("https", "www.gstatic.com")
      else none;
}
