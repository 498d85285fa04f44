-- ===== src/Core/Examples.antt =====
-- A registry for the examples of the tests: two slots, three sessions, a token key and two session
-- objects. Somebody is logged in to slot 1.
use pkcs11hsmsim.Base.{◌+◌, true, false, none, some, [], ◌∷◌, arith, any_of}
use pkcs11hsmsim.Base.Text.{codes}
use pkcs11hsmsim.Base.Dict.{lookup}
use pkcs11hsmsim.Ck.{
  cku_user, cko_private_key, cko_secret_key, ckk_rsa, ckk_aes, cka_sensitive, cka_extractable,
}
use pkcs11hsmsim.Disk.{Faults}
use pkcs11hsmsim.Openssl.{KeyReader, KeyWriter}
use pkcs11hsmsim.Core.State.{Slot, Object, Session, Runtime, no_session, no_object}
use pkcs11hsmsim.Core.Invariant.{IsValid}

abbrev pub no_faults : Faults
no_faults = record {
  probing = λ p. false;
  opening = λ p. false;
  writing = λ p. false;
  torn = λ p. 0;
  buffer = 8191;
  renaming = λ p. false;
  removing = λ p. false;
}

abbrev pub front_slot : Slot
front_slot = record {
  id = 1;
  label = codes "front";
  directory = codes "1";
  user_pin = some (codes "1234");
  so_pin = some (codes "5678");
  p12_password = [];
  legacy_layout = false;
  logged_in_user = some cku_user;
}

abbrev pub back_slot : Slot
back_slot = record {
  id = 2;
  label = codes "back";
  directory = codes "2";
  user_pin = some (codes "1234");
  so_pin = some (codes "5678");
  p12_password = [];
  legacy_layout = false;
  logged_in_user = none;
}

-- OpenSSL tells nothing.
abbrev pub mute : KeyReader
mute = record {
  is_rsa = λ key. false;
  is_ec = λ key. false;
  type_name = λ key. [];
  bits = λ key. 0;
  modulus = λ key. none;
  public_exponent = λ key. none;
  ec_params = λ key. none;
  ec_point = λ key. none;
}

-- The public part of a key has the next number, and a digest is the text itself.
abbrev pub scribe : KeyWriter
scribe = record {
  encode_p12 = λ password label key. some label;
  public_part = λ key. some (key + 1);
  certificate_der = λ certificate. none;
  digest = λ text. some text;
}

-- A token key of slot 1.
abbrev pub signing_key : Object
signing_key = record no_object {
  handle = 1;
  slot_id = 1;
  object_class = cko_private_key;
  key_type = ckk_rsa;
  label = codes "sign";
  path = codes "k";
  asymmetric_key = some 7;
}

-- A sensitive session key of slot 1.
abbrev pub wrapping_key : Object
wrapping_key = record no_object {
  handle = 2;
  slot_id = 1;
  object_class = cko_secret_key;
  key_type = ckk_aes;
  label = codes "wrap";
  secret_value = 1 ∷ 2 ∷ 3 ∷ 4 ∷ [];
  owner_session = 1;
  policy = (cka_sensitive, true) ∷ (cka_extractable, false) ∷ [];
}

abbrev pub writer : Session
writer = record no_session { handle = 1; slot_id = 1; flags = 6 }

abbrev pub reader_session : Session
reader_session = record no_session {
  handle = 3;
  slot_id = 1;
  flags = 4;
  search_active = true;
  matches = 1 ∷ 2 ∷ [];
}

abbrev pub back_session : Session
back_session = record no_session { handle = 2; slot_id = 2; flags = 6 }

abbrev pub office : Runtime
office = record {
  initialized = true;
  storage_root = [];
  next_object_handle = 3;
  next_session_handle = 4;
  slots = (1, front_slot) ∷ (2, back_slot) ∷ [];
  objects = (1, signing_key) ∷ (2, wrapping_key) ∷ [];
  sessions = (3, reader_session) ∷ (1, writer) ∷ (2, back_session) ∷ [];
  disk = record { files = (codes "k", 9 ∷ []) ∷ []; faults = no_faults };
}

pub office-IsValid : IsValid office
unfolding lookup any_of
office-IsValid = record {
  first_handles = ground arith;
  unique_slots = ground arith;
  unique_objects = ground arith;
  unique_sessions = ground arith;
  sessions_ok = ground arith;
  objects_ok = ground arith;
  slots_ok = ground arith;
}
