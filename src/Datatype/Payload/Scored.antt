-- ===== src/Datatype/Payload/Scored.antt =====
-- The loop of `deserialize` over a sorted set rebuilds what `serialize` walked over.
use concurrent_cache.Prelude.{
  ℕ, ◌+◌, ◌^◌, ◌<◌, ◌≡◌, refl, sym, ap, ◌∙◌, none, some, List, [], ◌∷◌, ◌++◌, arith, length,
  append_assoc, append-nil, true, false,
}
use mathlib.Core.Path.{subst}
use concurrent_cache.Text.{Bytes, str_eq, str_eq_iff}
use concurrent_cache.Datatype.Double.{Double, is_nan, is_inf}
use concurrent_cache.Datatype.Object.{CacheObject, zset, empty_object}
use concurrent_cache.Datatype.Object.SortedSets.{zset_add}
use concurrent_cache.Datatype.Object.Members.{
  ZSetMember, insert_member, score_of, score_differs, member_lt,
}
use concurrent_cache.Datatype.Object.Ordered.{IsOrdered, Heads, score_differs-score_of}
use concurrent_cache.Datatype.Payload.{
  ScoreText, record_of, records, score_records, read_score, read_zset,
}
use concurrent_cache.Datatype.Payload.Records.{At, read_record-record_of}
use concurrent_cache.Datatype.Payload.Loops.{At-end}

abbrev pub of_zset : List ZSetMember → CacheObject
of_zset m = record empty_object { type = zset; zset_val = m }

-- No score is an infinity.
abbrev pub IsFinite : List ZSetMember → Type 0
IsFinite [] = Unit {0}
IsFinite (z ∷ zs) = (is_inf z.score ≡ false) × IsFinite zs

Heads-middle :
    (y z : ZSetMember) (seen zs : List ZSetMember)
    → Heads y (seen ++ z ∷ zs)
    → (member_lt y z ≡ true) × (str_eq z.member y.member ≡ false)
Heads-middle y z [] zs h = (h.0, h.1)
Heads-middle y z (x ∷ seen) zs h = Heads-middle y z seen zs h.2

insert_last :
    (z : ZSetMember) (seen zs : List ZSetMember)
    → IsOrdered (seen ++ z ∷ zs)
    → (insert_member z seen ≡ (seen ++ z ∷ [], true)) × (score_of z.member seen ≡ none)
unfolding insert_member score_of
insert_last z [] zs o = (refl, refl)
insert_last z (y ∷ seen) zs o = ground (
  arith,
  str_eq_iff y.member z.member,
  str_eq_iff z.member y.member,
  Heads-middle y z seen zs o.1,
  insert_last z seen zs o.2,
)

pub zset_add-of_zset :
    (z : ZSetMember) (seen zs : List ZSetMember)
    → IsOrdered (seen ++ z ∷ zs)
    → (zset_add (of_zset seen) z.member z.score).0 ≡ of_zset (seen ++ z ∷ [])
unfolding zset_add
zset_add-of_zset z seen zs o =
    let (last, absent) = insert_last z seen zs o in
    ap of_zset (ground (arith, last, absent, score_differs-score_of z.member z.score seen))

number_middle :
    (z : ZSetMember) (seen zs : List ZSetMember)
    → IsOrdered (seen ++ z ∷ zs)
    → is_nan z.score ≡ false
number_middle z [] zs o = o.0
number_middle z (x ∷ seen) zs o = number_middle z seen zs o.2

module _ (st : ScoreText) where
  read_score-format :
      (d : Double) → is_nan d ≡ false → is_inf d ≡ false → read_score st (st.format d) ≡ some d
  unfolding read_score
  read_score-format d n f = rw (st.read_back d n f, n, f)

  read_zset-records :
      (buf : Bytes) (pos : ℕ) (seen zs : List ZSetMember)
      → length buf < 2 ^ 64
      → IsOrdered (seen ++ zs)
      → IsFinite zs
      → At buf pos (records (score_records st zs))
      → read_zset st buf (length zs) pos (of_zset seen) ≡ (of_zset (seen ++ zs), none)
  unfolding read_zset
  read_zset-records buf pos seen [] fits o f h =
      At-end buf pos (of_zset seen) h ∙ ap (λ n. (of_zset n, none)) (sym (append-nil seen))
  read_zset-records buf pos seen (z ∷ zs) fits o f h =
      let text = st.format z.score in
      let tail = records (score_records st zs) in
      let first = read_record-record_of buf pos z.member (record_of text ++ tail) fits h in
      let middle = pos + length (record_of z.member) in
      let second = read_record-record_of buf middle text tail fits first.1 in
      let shift = append_assoc seen (z ∷ []) zs in
      rw
        (
          first.0,
          second.0,
          read_score-format z.score (number_middle z seen zs o) f.0,
          zset_add-of_zset z seen zs o,
        )
        (read_zset-records buf (middle + length (record_of text)) (seen ++ z ∷ []) zs fits
            (subst IsOrdered (sym shift) o) f.1 second.1
          ∙ ap (λ n. (of_zset n, none)) shift)

  -- From a new object the first member makes it a sorted set.
  pub read_zset-first :
      (buf : Bytes) (pos : ℕ) (z : ZSetMember) (zs : List ZSetMember)
      → length buf < 2 ^ 64
      → IsOrdered (z ∷ zs)
      → IsFinite (z ∷ zs)
      → At buf pos (records (score_records st (z ∷ zs)))
      → read_zset st buf (length (z ∷ zs)) pos empty_object ≡ (of_zset (z ∷ zs), none)
  unfolding read_zset zset_add score_differs insert_member
  read_zset-first buf pos z zs fits o f h =
      let text = st.format z.score in
      let tail = records (score_records st zs) in
      let first = read_record-record_of buf pos z.member (record_of text ++ tail) fits h in
      let middle = pos + length (record_of z.member) in
      let second = read_record-record_of buf middle text tail fits first.1 in
      rw (first.0, second.0, read_score-format z.score o.0 f.0)
        (read_zset-records buf (middle + length (record_of text)) (z ∷ []) zs fits o f.1 second.1)
