-- ===== src/Core/State.antt =====
-- The records of src/core/runtime.hpp.
use pkcs11hsmsim.Base.{ℕ, Bool, false, not, ◌&&◌, Option, none, List, [], Bytes, ◌==◌}
use pkcs11hsmsim.Ck.{is_rw}
use pkcs11hsmsim.Base.Dict.{Dict}
use pkcs11hsmsim.Disk.{Disk}

pub record Slot : Type 0 where
  pub id : ℕ
  pub label : Bytes
  pub directory : Bytes
  pub user_pin : Option Bytes
  pub so_pin : Option Bytes
  pub p12_password : Bytes
  pub legacy_layout : Bool
  pub logged_in_user : Option ℕ

-- A `shared_ptr<EVP_PKEY>` is the address of a key that OpenSSL owns.
pub record Object : Type 0 where
  pub handle : ℕ
  pub slot_id : ℕ
  pub object_class : ℕ
  pub key_type : ℕ
  pub label : Bytes
  pub id : Bytes
  pub path : Bytes
  pub algorithm_name : Bytes
  pub secret_value : Bytes
  pub certificate_der : Bytes
  pub asymmetric_key : Option ℕ
  -- Zero for a token object, otherwise the creating session.
  pub owner_session : ℕ
  pub policy : Dict Bool

pub record PssParams : Type 0 where
  pub hash_alg : ℕ
  pub mgf : ℕ
  pub s_len : ℕ

pub record Operation : Type 0 where
  pub active : Bool
  pub verify : Bool
  pub mechanism : ℕ
  pub key_handle : ℕ
  pub buffered_data : Bytes
  pub pss : PssParams

pub record Session : Type 0 where
  pub handle : ℕ
  pub flags : ℕ
  pub slot_id : ℕ
  pub search_active : Bool
  pub matches : List ℕ
  pub search_offset : ℕ
  pub operation : Operation

-- `slots` is in the order of its keys, as a `std::map`; the others are unordered. The files under
-- the storage root stand beside the registry.
pub record Runtime : Type 0 where
  pub initialized : Bool
  pub storage_root : Bytes
  pub next_object_handle : ℕ
  pub next_session_handle : ℕ
  pub slots : Dict Slot
  pub objects : Dict Object
  pub sessions : Dict Session
  pub disk : Disk

-- The values that the initialisers `{}` give.
abbrev pub no_operation : Operation
no_operation = record {
  active = false;
  verify = false;
  mechanism = 0;
  key_handle = 0;
  buffered_data = [];
  pss = record { hash_alg = 0; mgf = 0; s_len = 0 };
}

abbrev pub no_session : Session
no_session = record {
  handle = 0;
  flags = 0;
  slot_id = 0;
  search_active = false;
  matches = [];
  search_offset = 0;
  operation = no_operation;
}

abbrev pub no_object : Object
no_object = record {
  handle = 0;
  slot_id = 0;
  object_class = 0;
  key_type = 0;
  label = [];
  id = [];
  path = [];
  algorithm_name = [];
  secret_value = [];
  certificate_der = [];
  asymmetric_key = none;
  owner_session = 0;
  policy = [];
}

-- Tests on an entry of `runtime.sessions`.
abbrev pub in_slot : ℕ → ℕ × Session → Bool
in_slot id e = e.1.slot_id == id

abbrev pub read_only_in_slot : ℕ → ℕ × Session → Bool
read_only_in_slot id e = e.1.slot_id == id && not (is_rw e.1.flags)
