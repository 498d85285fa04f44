-- ===== src/Template.antt =====
-- src/objects/template.cpp: reading the attributes that a caller passes.
use pkcs11hsmsim.Base.{
  ℕ, ◌+◌, ◌*◌, Option, none, some, List, [], ◌∷◌, Bytes, ◌==◌, length, Array, null, items,
  if◌then◌else◌, value_or,
}
use pkcs11hsmsim.Ck.{sizeof_ulong}

-- CK_ATTRIBUTE: `value` is pValue with ulValueLen.
pub record Attribute : Type 0 where
  pub type : ℕ
  pub value : Array ℕ

abbrev pub Template : Type 0
Template = Array Attribute

-- The value of a matching attribute: an empty one is the empty string, a null pointer is none.
unfoldable pub attribute_bytes : Array ℕ → Option Bytes
attribute_bytes (null n) = if n == 0 then some [] else none
attribute_bytes (items xs) = some xs

unfoldable pub find_bytes : List Attribute → ℕ → Option Bytes
unfolding attribute_bytes
find_bytes [] t = none
find_bytes (a ∷ as') t = if a.type == t then attribute_bytes a.value else find_bytes as' t

unfoldable pub template_bytes : Template → ℕ → Option Bytes
unfolding find_bytes
template_bytes (null n) t = none
template_bytes (items xs) t = find_bytes xs t

unfoldable pub template_string : Template → ℕ → Bytes → Bytes
unfolding template_bytes
template_string attributes t fallback = value_or (template_bytes attributes t) fallback

-- The bytes of a CK_ULONG in memory, lowest first.
unfoldable pub from_bytes : Bytes → ℕ
from_bytes [] = 0
from_bytes (b ∷ bs) = b + 256 * from_bytes bs

unfoldable pub template_unsigned : Template → ℕ → Option ℕ
unfolding template_bytes from_bytes
template_unsigned attributes t = elim (template_bytes attributes t) [
  | none ↦ none
  | some value ↦ if length value == sizeof_ulong then some (from_bytes value) else none
]
