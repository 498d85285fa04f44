-- ===== src/Objects/Tests.antt =====
-- Objects of a concrete registry.
use pkcs11hsmsim.Disk.{remove}
use pkcs11hsmsim.Base.{
  ℕ, ◌≡◌, refl, true, none, some, [], ◌∷◌, ◌++◌, items, contents, any_of, arith, bytes_eq,
}
use pkcs11hsmsim.Base.Text.{codes}
use pkcs11hsmsim.Base.Dict.{lookup}
use pkcs11hsmsim.Ck.{cka_label}
use pkcs11hsmsim.Core.State.{Session, Object}
use pkcs11hsmsim.Core.{find_object, require_user_login}
use pkcs11hsmsim.Core.Examples.{mute, office, office-IsValid, signing_key, writer, reader_session}
use pkcs11hsmsim.Policy.Values.{one_of, policy_value, default_policy}
use pkcs11hsmsim.Template.{Template}
use pkcs11hsmsim.Objects.{destroy_object, find_objects_init, is_visible, remove_files}
use pkcs11hsmsim.Objects.Destroying.{destroy_object_removes}
use pkcs11hsmsim.Objects.Draining.{drain, drain_complete}
use pkcs11hsmsim.Objects.Searching.{find_objects_init_finds, Above, Wanted}
use pkcs11hsmsim.Objects.Paging.{find_objects_pages, pages, remaining, visible_among}

-- The key labelled "sign".
abbrev wanted : Template
wanted = items (record { type = cka_label; value = items (codes "sign") } ∷ [])

destroy_object_removes_example : lookup 1 (destroy_object 1 1 office).1.objects ≡ none
unfolding lookup find_object destroy_object require_user_login policy_value default_policy any_of
    bytes_eq remove_files remove
destroy_object_removes_example =
    (destroy_object_removes 1 1 office {s = writer} {o = signing_key} office-IsValid refl refl
      refl).1.0

find_objects_init_finds_example :
    (s' : Session) × (lookup 1 (find_objects_init mute 1 wanted office).1.sessions ≡ some s')
    × (s'.search_active ≡ true)
    × (s'.search_offset ≡ 0)
    × Above 0 s'.matches
    × ((k : ℕ)
        → one_of s'.matches k ≡ true
        → (o : Object) × (lookup k office.objects ≡ some o)
          × Wanted mute 1 writer (contents wanted) office o)
    × ((k : ℕ) (o : Object)
        → lookup k office.objects ≡ some o
        → Wanted mute 1 writer (contents wanted) office o
        → one_of s'.matches k ≡ true)
unfolding lookup find_objects_init any_of
find_objects_init_finds_example =
    find_objects_init_finds mute 1 wanted office {s = writer} office-IsValid refl refl

-- The search of session 3 in pages of one and of two handles.
find_objects_pages_example :
    (s' : Session) × (lookup 3 (pages 3 (1 ∷ 2 ∷ []) office).1.sessions ≡ some s')
    × (s'.search_active ≡ true)
    × (s'.matches ≡ reader_session.matches)
    × ((pages 3 (1 ∷ 2 ∷ []) office).0 ++ visible_among (is_visible 3 office) (remaining s')
        ≡ visible_among (is_visible 3 office) (remaining reader_session))
unfolding lookup
find_objects_pages_example = find_objects_pages 3 (1 ∷ 2 ∷ []) office {s = reader_session} refl refl

drain_complete_example :
    drain 3 1 3 office ≡ some (visible_among (is_visible 3 office) (remaining reader_session))
unfolding lookup
drain_complete_example =
    drain_complete 3 3 1 office {s = reader_session} refl refl (ground arith) (ground arith)
