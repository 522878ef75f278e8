-- ===== src/Keys/Created.antt =====
-- The `created` index: which records the fallback search can find, and what escaping protects.
use zipstash.Base.{
  ◌≡◌, ◌↔◌, true, [], ◌∷◌, ◌++◌, append_assoc, Text, Lacks, has_prefix, prefix_laws,
}
use zipstash.GoStd.Strings.{join, has_prefix-part}
use zipstash.GoStd.Query.{query_escape, AreBytes}
use zipstash.GoStd.Query.Laws.{query_escape_injective, query_escape-Lacks}
use zipstash.Keys.{hash, escape_value, created_value, created_prefix, tenant_key}

-- No "#" in the five fields that are written as they are.
pub record LackHash (owner provider os arch name : Text) : Type 0 where
  pub owner_lacks : Lacks hash owner
  pub provider_lacks : Lacks hash provider
  pub os_lacks : Lacks hash os
  pub arch_lacks : Lacks hash arch
  pub name_lacks : Lacks hash name

-- The six fields are the same.
pub record SameFields (o p s a n b o' p' s' a' n' b' : Text) : Type 0 where
  pub same_owner : o ≡ o'
  pub same_provider : p ≡ p'
  pub same_os : s ≡ s'
  pub same_arch : a ≡ a'
  pub same_name : n ≡ n'
  pub same_branch : b ≡ b'

prefix-SameFields :
    (o p s a n b o' p' s' a' n' b' now : Text)
    → LackHash o p s a n
    → LackHash o' p' s' a' n'
    → AreBytes b
    → AreBytes b'
    → has_prefix (created_value o p s a n b now) (created_prefix o' p' s' a' n' b') ≡ true
    → SameFields o p s a n b o' p' s' a' n' b'
unfolding created_value created_prefix join escape_value
prefix-SameFields o p s a n b o' p' s' a' n' b' now h h' hb hb' e =
    let (eo, e1) = has_prefix-part o o' _ _ hash h.owner_lacks h'.owner_lacks e in
    let (ep, e2) = has_prefix-part p p' _ _ hash h.provider_lacks h'.provider_lacks e1 in
    let (es, e3) = has_prefix-part s s' _ _ hash h.os_lacks h'.os_lacks e2 in
    let (ea, e4) = has_prefix-part a a' _ _ hash h.arch_lacks h'.arch_lacks e3 in
    let (en, e5) = has_prefix-part n n' _ _ hash h.name_lacks h'.name_lacks e4 in
    let (eb, _) =
      has_prefix-part (query_escape b) (query_escape b') now [] hash (query_escape-Lacks b)
        (query_escape-Lacks b') e5 in
    record {
      same_owner = eo;
      same_provider = ep;
      same_os = es;
      same_arch = ea;
      same_name = en;
      same_branch = query_escape_injective b b' hb hb' eb;
    }

created_value-prefix :
    (o p s a n b now : Text)
    → has_prefix (created_value o p s a n b now) (created_prefix o p s a n b) ≡ true
unfolding created_value created_prefix join
created_value-prefix o p s a n b now = simp prefix_laws

-- The fallback search looks for exactly the records of the same owner, provider, system,
-- architecture, name and branch, whatever bytes the branches hold, if no other field holds a "#".
pub created_prefix_exact :
    (o p s a n b o' p' s' a' n' b' now : Text)
    → LackHash o p s a n
    → LackHash o' p' s' a' n'
    → AreBytes b
    → AreBytes b'
    → (has_prefix (created_value o p s a n b now) (created_prefix o' p' s' a' n' b') ≡ true)
      ↔ SameFields o p s a n b o' p' s' a' n' b'
created_prefix_exact o p s a n b o' p' s' a' n' b' now h h' hb hb' = (
  prefix-SameFields o p s a n b o' p' s' a' n' b' now h h' hb hb',
  λ e.
      rw (e.same_owner, e.same_provider, e.same_os, e.same_arch, e.same_name, e.same_branch)
        (created_value-prefix o' p' s' a' n' b' now),
)

-- The name is not escaped: the records of a project named "name#branch", on whatever branch, are
-- found by the fallback search of the project "name" for that branch.
pub created_prefix-name :
    (o p s a n b other now : Text)
    → has_prefix
        (created_value o p s a (n ++ hash ∷ escape_value b) other now)
        (created_prefix o p s a n b)
      ≡ true
unfolding created_value created_prefix join
created_prefix-name o p s a n b other now = simp (append_assoc, prefix_laws)

-- A tenant's key begins with the key of every owner that its owner's name begins with.
pub tenant_key-prefix :
    (provider owner rest : Text)
    → has_prefix (tenant_key provider (owner ++ rest)) (tenant_key provider owner) ≡ true
unfolding tenant_key
tenant_key-prefix provider owner rest = simp prefix_laws
