-- ===== src/Cache/Table.antt =====
-- The sorted sets of redis by a table of different members: the documented effects can hold.
use hexchess.Prelude.{
  ℕ, ◌≡◌, refl, ◌∙◌, ap, sym, subst, Bool, true, false, not, Option, none, some, List, [], ◌∷◌,
  length, leb, if◌then◌else◌, Bool-cases, Option-cases, inl, inr, arith,
}
use hexchess.Model.Enums.{Text, same_text, ≡-of_same_text}
use hexchess.Cache.{
  contains_text, all_distinct, is_member, is_due, first_score, new_score, SortedSets, Documented,
}

abbrev pub Entries : Type 0
Entries = List (Text × ℕ)

abbrev pub keys : Entries → List Text
keys [] = []
keys ((k, s) ∷ es) = k ∷ keys es

abbrev pub lookup : Text → Entries → Option ℕ
lookup m [] = none
lookup m ((k, s) ∷ es) = let later = lookup m es in if same_text m k then some s else later

abbrev pub keep : (Text → ℕ → Bool) → Entries → Entries
keep p [] = []
keep p ((k, s) ∷ es) = let rest = keep p es in if p k s then (k, s) ∷ rest else rest

abbrev filtered : (Text → ℕ → Bool) → Text → Option ℕ → Option ℕ
filtered p m none = none
filtered p m (some s) = if p m s then some s else none

contains-keys : (m : Text) (es : Entries) → contains_text (keys es) m ≡ is_member (lookup m es)
contains-keys m [] = refl
contains-keys m ((k, s) ∷ es) = ground (arith, contains-keys m es)

contains-keep :
    (p : Text → ℕ → Bool) (m : Text) (es : Entries)
    → contains_text (keys es) m ≡ false
    → contains_text (keys (keep p es)) m ≡ false
contains-keep p m [] c = refl
contains-keep p m ((k, s) ∷ es) c = ground (arith, c, contains-keep p m es)

pub distinct-keep :
    (p : Text → ℕ → Bool) (es : Entries)
    → all_distinct (keys es) ≡ true
    → all_distinct (keys (keep p es)) ≡ true
distinct-keep p [] d = refl
distinct-keep p ((k, s) ∷ es) d = ground (arith, d, distinct-keep p es, contains-keep p k es)

lookup_absent : (m : Text) (es : Entries) → contains_text (keys es) m ≡ false → lookup m es ≡ none
lookup_absent m [] c = refl
lookup_absent m ((k, s) ∷ es) c = ground (arith, c, lookup_absent m es)

lookup-keep :
    (p : Text → ℕ → Bool) (m : Text) (es : Entries)
    → all_distinct (keys es) ≡ true
    → lookup m (keep p es) ≡ filtered p m (lookup m es)
lookup-keep p m [] d = refl
lookup-keep p m ((k, s) ∷ es) d =
    let later = lookup-keep p m es (ground (arith, d)) in
    elim (Bool-cases (same_text m k)) [
      | inl e ↦
          let same = ≡-of_same_text m k e in
          let absent : contains_text (keys es) m ≡ false =
            subst (λ y. contains_text (keys es) y ≡ false) (sym same) (ground (arith, d)) in
          let gone = lookup_absent m (keep p es) (contains-keep p m es absent) in
          ground (arith, e, gone, ap (λ x. p x s) same)
      | inr e ↦ ground (arith, e, later)
    ]

-- A sorted set: each member has one score.
pub record Table : Type 0 where
  pub entries : Entries
  pub distinct : all_distinct (keys entries) ≡ true

abbrev pub kept : (Text → ℕ → Bool) → Table → Table
kept p t = record { entries = keep p t.entries; distinct = distinct-keep p t.entries t.distinct }

abbrev pub other : Text → Text → ℕ → Bool
other m k s = not (same_text m k)

pub absent_other : (m : Text) (es : Entries) → contains_text (keys (keep (other m) es)) m ≡ false
absent_other m [] = refl
absent_other m ((k, s) ∷ es) = ground (arith, absent_other m es)

pub put_distinct :
    (s : ℕ) (m : Text) (t : Table) → all_distinct (keys ((m, s) ∷ keep (other m) t.entries)) ≡ true
put_distinct s m t =
    ground (arith, absent_other m t.entries, distinct-keep (other m) t.entries t.distinct)

abbrev pub put : ℕ → Text → Table → Table
put s m t = record { entries = (m, s) ∷ keep (other m) t.entries; distinct = put_distinct s m t }

abbrev pub put_again : ℕ → Text → Table → Option ℕ → Table
put_again s m t none = t
put_again s m t (some old) = put s m t

abbrev pub table : SortedSets Table
table = record {
  zadd = put;
  zadd_nx = λ s m t. put (first_score (lookup m t.entries) s) m t;
  zadd_xx = λ s m t. put_again s m t (lookup m t.entries);
  zrem = λ ms t. kept (λ k s. not (contains_text ms k)) t;
  zscore = λ m t. lookup m t.entries;
  zrange_by_score = λ hi t. keys (keep (λ k s. leb s hi) t.entries);
  zrem_range_by_score = λ hi t. kept (λ k s. not (leb s hi)) t;
  zcard = λ t. length t.entries;
}

same_text_sym : (a b : Text) → same_text a b ≡ same_text b a
same_text_sym [] [] = refl
same_text_sym (c ∷ cs) (d ∷ ds) = ground (arith, same_text_sym cs ds)
same_text_sym [] (d ∷ ds) = refl
same_text_sym (c ∷ cs) [] = refl

score_put :
    (s : ℕ) (m : Text) (t : Table) (n : Text)
    → lookup n (put s m t).entries ≡ (if same_text n m then some s else lookup n t.entries)
score_put s m t n =
    let rest = lookup-keep (other m) n t.entries t.distinct in
    let sym_test = same_text_sym n m in
    elim (Option-cases (lookup n t.entries)) [
      | inl e ↦ ground (arith, e, rest, sym_test)
      | inr (old, e) ↦ ground (arith, e, rest, sym_test)
    ]

score_again :
    (s : ℕ) (m : Text) (t : Table) (n : Text) (o : Option ℕ)
    → lookup m t.entries ≡ o
    → lookup n (put_again s m t o).entries
      ≡ (if same_text n m then new_score o s else lookup n t.entries)
score_again s m t n none e = elim (Bool-cases (same_text n m)) [
  | inl same ↦ ground (arith, same, e, ap (λ k. lookup k t.entries) (≡-of_same_text n m same))
  | inr off ↦ ground (arith, off)
]
score_again s m t n (some old) e = score_put s m t n

removed_each :
    (ms : List Text) (n : Text) (o : Option ℕ)
    → filtered (λ k s. not (contains_text ms k)) n o ≡ (if contains_text ms n then none else o)
removed_each ms n none = ground arith
removed_each ms n (some s) = ground arith

removed_due :
    (hi : ℕ) (n : Text) (o : Option ℕ)
    → filtered (λ k s. not (leb s hi)) n o ≡ (if is_due hi o then none else o)
removed_due hi n none = refl
removed_due hi n (some s) = ground arith

listed_due :
    (hi : ℕ) (n : Text) (o : Option ℕ) → is_member (filtered (λ k s. leb s hi) n o) ≡ is_due hi o
listed_due hi n none = refl
listed_due hi n (some s) = ground arith

length-keys : (es : Entries) → length es ≡ length (keys es)
length-keys [] = refl
length-keys (e ∷ es) = ground (arith, length-keys es)

pub table-Documented : Documented table
table-Documented = record {
  score_zadd = score_put;
  score_zadd_nx = λ s m t n. score_put (first_score (lookup m t.entries) s) m t n;
  score_zadd_xx = λ s m t n. score_again s m t n (lookup m t.entries) refl;
  score_zrem = λ ms t n.
      lookup-keep (λ k s. not (contains_text ms k)) n t.entries t.distinct
      ∙ removed_each ms n (lookup n t.entries);
  range = λ hi t. record {
    distinct = distinct-keep (λ k s. leb s hi) t.entries t.distinct;
    listed = λ m.
        contains-keys m (keep (λ k s. leb s hi) t.entries)
        ∙ ap is_member (lookup-keep (λ k s. leb s hi) m t.entries t.distinct)
        ∙ listed_due hi m (lookup m t.entries);
  };
  score_zrem_range = λ hi t n.
      lookup-keep (λ k s. not (leb s hi)) n t.entries t.distinct
      ∙ removed_due hi n (lookup n t.entries);
  card = λ t. (
    keys t.entries,
    record { distinct = t.distinct; listed = λ m. contains-keys m t.entries },
    length-keys t.entries,
  );
}
