-- ===== src/Meta/Keys.antt =====
-- The keys of internal/workloadmeta and internal/volumemeta are trimmed, and tell apart whatever the
-- validated names tell apart.
use Prim.Native.Char.{Char, code}
use Prim.Native.String.{[], ◌∷◌, ◌++◌}
use text.Mathlib.TextLemmas.{nil-append, cons-append}
use orch.Prelude.{
  String, true, false, ◌||◌, ◌≡◌, ◌≢◌, refl, sym, ◌∙◌, ◌⊎◌, inl, inr, arith, ◌==◌, eq_iff,
  Bool-cases,
}
use orch.Prelude.Text.{trim_space, all_chars}
use orch.Prelude.Trim.{
  IsTrimmed, trim_space-IsTrimmed, append-IsTrimmed, append-ne-nil, split_at_mark,
}
use orch.Deploy.Document.{Metadata}
use orch.Deploy.Names.{is_name_char, name_re, name_re-all_chars, trim_space-of_name}
use orch.Meta.{namespace_or_default, assignment_key, binding_key, deploy_app_map_key}

-- What App.Validate grants of the metadata.
pub record IsNamed (m : Metadata) : Type 0 where
  pub name : name_re m.name ≡ true
  pub namespace : (m.namespace ≡ "") ⊎ (name_re m.namespace ≡ true)

slash : Char
slash = "/"

slash-append : (s : String) → "/" ++ s ≡ slash ∷ s
unfolding slash
slash-append s = rw (cons-append "/" [] s, nil-append s) refl

pub namespace_or_default-ne-nil : (ns : String) → namespace_or_default ns ≢ ""
unfolding namespace_or_default
namespace_or_default-ne-nil ns p = ground (arith, eq_iff (trim_space ns) "", eq_iff "default" "")

default-IsTrimmed : IsTrimmed "default"
unfolding trim_space
default-IsTrimmed = trim_space-IsTrimmed "default"

pub namespace_or_default-IsTrimmed : (ns : String) → IsTrimmed (namespace_or_default ns)
unfolding namespace_or_default
namespace_or_default-IsTrimmed ns = elim (Bool-cases (trim_space ns == "")) [
  | inl blank ↦ rw blank default-IsTrimmed
  | inr set ↦ rw set (trim_space-IsTrimmed ns)
]

slash_ne_nil : ◌≢◌ {A = String} "/" ""
slash_ne_nil = ground (arith, eq_iff "/" "")

slash-IsTrimmed : IsTrimmed "/"
unfolding trim_space
slash-IsTrimmed = trim_space-IsTrimmed "/"

-- Two trimmed parts joined by a slash.
join-IsTrimmed :
    (s t : String) → s ≢ "" → t ≢ "" → IsTrimmed s → IsTrimmed t → IsTrimmed (s ++ "/" ++ t)
join-IsTrimmed s t hs ht ls lt =
    append-IsTrimmed s ("/" ++ t) hs (append-ne-nil "/" t ht) ls
      (append-IsTrimmed "/" t slash_ne_nil ht slash-IsTrimmed lt)

join-ne-nil : (s t : String) → t ≢ "" → s ++ "/" ++ t ≢ ""
join-ne-nil s t ne = append-ne-nil s ("/" ++ t) (append-ne-nil "/" t ne)

ne-nil_of_test : (s : String) → (s == "") ≡ false → s ≢ ""
ne-nil_of_test s h p = ground (arith, eq_iff s "")

pub assignment_key-ne-nil :
    (m : Metadata) (w : String)
    → trim_space m.name ≢ ""
    → trim_space w ≢ ""
    → assignment_key m w ≢ ""
unfolding assignment_key
assignment_key-ne-nil m w named set =
    let n : (trim_space m.name == "") ≡ false =
      grind (arith, named, eq_iff (trim_space m.name) "") in
    let s : (trim_space w == "") ≡ false = grind (arith, set, eq_iff (trim_space w) "") in
    rw (n, s)
      (join-ne-nil (namespace_or_default m.namespace) (trim_space m.name ++ "/" ++ trim_space w)
        (join-ne-nil (trim_space m.name) (trim_space w) set))

pub binding_key-ne-nil :
    (m : Metadata) (w v : String)
    → trim_space m.name ≢ ""
    → trim_space w ≢ ""
    → trim_space v ≢ ""
    → binding_key m w v ≢ ""
unfolding binding_key
binding_key-ne-nil m w v named set given =
    let n : (trim_space m.name == "") ≡ false =
      grind (arith, named, eq_iff (trim_space m.name) "") in
    let s : (trim_space w == "") ≡ false = grind (arith, set, eq_iff (trim_space w) "") in
    let g : (trim_space v == "") ≡ false = grind (arith, given, eq_iff (trim_space v) "") in
    rw (n, s, g)
      (join-ne-nil (namespace_or_default m.namespace)
        (trim_space m.name ++ "/" ++ trim_space w ++ "/" ++ trim_space v)
        (join-ne-nil (trim_space m.name) (trim_space w ++ "/" ++ trim_space v)
          (join-ne-nil (trim_space w) (trim_space v) given)))

-- An assignment's key is empty, or has no space around it.
pub assignment_key-IsTrimmed :
    (m : Metadata) (w : String) → (assignment_key m w ≡ "") ⊎ IsTrimmed (assignment_key m w)
unfolding assignment_key
assignment_key-IsTrimmed m w = elim (Bool-cases (trim_space m.name == "")) [
  | inl blank ↦ inl (rw blank refl)
  | inr named ↦ elim (Bool-cases (trim_space w == "")) [
    | inl blank ↦ inl (rw (named, blank) refl)
    | inr set ↦ inr (
        rw (named, set)
          (let ha = ne-nil_of_test (trim_space m.name) named in
            let hw = ne-nil_of_test (trim_space w) set in
            join-IsTrimmed (namespace_or_default m.namespace)
              (trim_space m.name ++ "/" ++ trim_space w) (namespace_or_default-ne-nil m.namespace)
              (join-ne-nil (trim_space m.name) (trim_space w) hw)
              (namespace_or_default-IsTrimmed m.namespace)
              (join-IsTrimmed (trim_space m.name) (trim_space w) ha hw (trim_space-IsTrimmed m.name)
                (trim_space-IsTrimmed w))))
  ]
]

-- A volume binding's key is empty, or has no space around it.
pub binding_key-IsTrimmed :
    (m : Metadata) (w v : String) → (binding_key m w v ≡ "") ⊎ IsTrimmed (binding_key m w v)
unfolding binding_key
binding_key-IsTrimmed m w v = elim (Bool-cases (trim_space m.name == "")) [
  | inl blank ↦ inl (rw blank refl)
  | inr named ↦ elim (Bool-cases (trim_space w == "" || trim_space v == "")) [
    | inl blank ↦ inl (rw (named, blank) refl)
    | inr set ↦ inr (
        rw (named, set)
          (let ha = ne-nil_of_test (trim_space m.name) named in
            let hw = ne-nil_of_test (trim_space w) (ground arith) in
            let hv = ne-nil_of_test (trim_space v) (ground arith) in
            let tail =
              join-IsTrimmed (trim_space w) (trim_space v) hw hv (trim_space-IsTrimmed w)
                (trim_space-IsTrimmed v) in
            let rest = trim_space w ++ "/" ++ trim_space v in
            let hr = join-ne-nil (trim_space w) (trim_space v) hv in
            join-IsTrimmed (namespace_or_default m.namespace) (trim_space m.name ++ "/" ++ rest)
              (namespace_or_default-ne-nil m.namespace) (join-ne-nil (trim_space m.name) rest hr)
              (namespace_or_default-IsTrimmed m.namespace)
              (join-IsTrimmed (trim_space m.name) rest ha hr (trim_space-IsTrimmed m.name) tail)))
  ]
]

slash_is_no_name_char : is_name_char (code slash) ≡ false
unfolding is_name_char slash
slash_is_no_name_char = refl

-- Parts of name characters are read back from a text joined by slashes.
split_at_slash :
    (s s' t t' : String)
    → all_chars is_name_char s ≡ true
    → all_chars is_name_char s' ≡ true
    → s ++ "/" ++ t ≡ s' ++ "/" ++ t'
    → (s ≡ s') × (t ≡ t')
split_at_slash s s' t t' hs hs' e =
    split_at_mark is_name_char slash s s' t t' slash_is_no_name_char hs hs'
      (rw (slash-append t, slash-append t') at e)

default_chars : all_chars is_name_char "default" ≡ true
unfolding is_name_char
default_chars = refl

namespace_chars :
    (ns : String)
    → (ns ≡ "") ⊎ (name_re ns ≡ true)
    → all_chars is_name_char (namespace_or_default ns) ≡ true
unfolding namespace_or_default
namespace_chars ns (inl empty) = rw empty (unfold trim_space is_name_char in refl)
namespace_chars ns (inr named) = elim (Bool-cases (trim_space ns == "")) [
  | inl blank ↦ rw blank default_chars
  | inr set ↦ rw (set, trim_space-of_name ns named) (name_re-all_chars ns named)
]

name_ne_nil : (s : String) → name_re s ≡ true → (s == "") ≡ false
unfolding name_re
name_ne_nil s h = elim (Bool-cases (s == "")) [
  | inl e ↦ let p : s ≡ "" = (eq_iff s "").0 e in let q : name_re "" ≡ true = rw p at h in cc q
  | inr e ↦ e
]

-- Under validated names two deploy apps have one key only if they have one name and namespace, where
-- the empty namespace counts as "default".
pub deploy_app_map_key-injective :
    (m n : Metadata)
    → IsNamed m
    → IsNamed n
    → deploy_app_map_key m ≡ deploy_app_map_key n
    → (namespace_or_default m.namespace ≡ namespace_or_default n.namespace) × (m.name ≡ n.name)
unfolding deploy_app_map_key
deploy_app_map_key-injective m n hm hn e =
    let (p, q) =
      split_at_slash (namespace_or_default m.namespace) (namespace_or_default n.namespace)
        (trim_space m.name) (trim_space n.name) (namespace_chars m.namespace hm.namespace)
        (namespace_chars n.namespace hn.namespace) e in
    (p, cc (q, trim_space-of_name m.name hm.name, trim_space-of_name n.name hn.name))

assignment_key_of_names :
    (m : Metadata) (w : String)
    → IsNamed m
    → name_re w ≡ true
    → assignment_key m w ≡ namespace_or_default m.namespace ++ "/" ++ m.name ++ "/" ++ w
unfolding assignment_key
assignment_key_of_names m w hm hw =
    rw
      (
        trim_space-of_name m.name hm.name,
        trim_space-of_name w hw,
        name_ne_nil m.name hm.name,
        name_ne_nil w hw,
      )
      refl

-- Under validated names two workloads have one assignment key only if they have one name and belong
-- to apps of one name and one namespace, where the empty namespace counts as "default".
pub assignment_key-injective :
    (m n : Metadata) (w v : String)
    → IsNamed m
    → IsNamed n
    → name_re w ≡ true
    → name_re v ≡ true
    → assignment_key m w ≡ assignment_key n v
    → (namespace_or_default m.namespace ≡ namespace_or_default n.namespace)
      × (m.name ≡ n.name)
      × (w ≡ v)
assignment_key-injective m n w v hm hn hw hv e =
    let joined = sym (assignment_key_of_names m w hm hw) ∙ e ∙ assignment_key_of_names n v hn hv in
    let (p, q) =
      split_at_slash (namespace_or_default m.namespace) (namespace_or_default n.namespace)
        (m.name ++ "/" ++ w) (n.name ++ "/" ++ v) (namespace_chars m.namespace hm.namespace)
        (namespace_chars n.namespace hn.namespace) joined in
    let (r, t) =
      split_at_slash m.name n.name w v (name_re-all_chars m.name hm.name)
        (name_re-all_chars n.name hn.name) q in
    (p, r, t)
