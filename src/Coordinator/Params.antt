-- ===== src/Coordinator/Params.antt =====
-- The parameters that a shard gets.
use telemetry_search_engine.Common.{
  ℕ, ◌≡◌, refl, ap, ◌∙◌, sym, List, [], ◌∷◌, ◌++◌, Text, codes, split_byte, join, true, false, eqb,
  All, All-append, Bool-cases, inl, inr,
}
use mathlib.Core.List.{append-nil, append_assoc}
use mathlib.Core.Path.{subst}
use telemetry_search_engine.Coordinator.{
  is_forwarded, filter_params, strip_pagination_params, with_page, shard_query,
}

module _ (sep : ℕ) where
  -- A byte that does not separate.
  abbrev pub IsPlain : ℕ → Type 0
  IsPlain c = eqb c sep ≡ false

  split_byte-All : (cur s : Text) → All IsPlain cur → All (All IsPlain) (split_byte sep cur s)
  unfolding split_byte
  split_byte-All cur [] h = (h, tt)
  split_byte-All cur (c ∷ s) h = elim (Bool-cases (eqb c sep)) [
    | inl e ↦ rw e (h, split_byte-All [] s tt)
    | inr e ↦ rw e (split_byte-All (cur ++ c ∷ []) s (All-append IsPlain cur (c ∷ []) h (e, tt)))
  ]

  split_byte-plain : (cur s : Text) → All IsPlain s → split_byte sep cur s ≡ (cur ++ s) ∷ []
  unfolding split_byte
  split_byte-plain cur [] h = rw append-nil
  split_byte-plain cur (c ∷ s) (p, h) =
      rw (p, split_byte-plain (cur ++ c ∷ []) s h, append_assoc cur (c ∷ []) s)

  split_byte-append :
      (cur p s : Text)
      → All IsPlain p
      → eqb sep sep ≡ true
      → split_byte sep cur (p ++ sep ∷ s) ≡ (cur ++ p) ∷ split_byte sep [] s
  unfolding split_byte
  split_byte-append cur [] s h e = rw (e, append-nil)
  split_byte-append cur (c ∷ p) s (q, h) e =
      rw (q, split_byte-append (cur ++ c ∷ []) p s h e, append_assoc cur (c ∷ []) p)

  split_byte-join :
      (t : Text) (ts : List Text)
      → All (All IsPlain) (t ∷ ts)
      → eqb sep sep ≡ true
      → split_byte sep [] (join (t ∷ ts) (sep ∷ [])) ≡ t ∷ ts
  unfolding join
  split_byte-join t [] (h, _) e = split_byte-plain [] t h
  split_byte-join t (u ∷ ts) (h, hs) e =
      let tail = join (u ∷ ts) (sep ∷ []) in
      rw (append_assoc t (sep ∷ []) tail)
        (split_byte-append [] t tail h e ∙ ap (◌∷◌ t) (split_byte-join u ts hs e))

filter_params-All : (P : Text → Type 0) (ps : List Text) → All P ps → All P (filter_params ps)
unfolding filter_params
filter_params-All P [] h = tt
filter_params-All P (p ∷ ps) (q, h) = elim (Bool-cases (is_forwarded p)) [
  | inl e ↦ rw e (q, filter_params-All P ps h)
  | inr e ↦ rw e (filter_params-All P ps h)
]

abbrev pub added : List Text
added = codes "page=1" ∷ codes "page_size=1000" ∷ []

join-added :
    (t : Text) (ts : List Text)
    → join (t ∷ ts) (codes "&") ++ codes "&page=1&page_size=1000"
      ≡ join (t ∷ (ts ++ added)) (codes "&")
unfolding join
join-added t [] = sym (append_assoc t (codes "&") (codes "page=1&page_size=1000"))
join-added t (u ∷ ts) =
    append_assoc (t ++ codes "&") (join (u ∷ ts) (codes "&")) (codes "&page=1&page_size=1000")
    ∙ ap (λ (s : Text). (t ++ codes "&") ++ s) (join-added u ts)

added-IsPlain : All (All (IsPlain b'&')) added
unfolding split_byte
added-IsPlain = split_byte-All b'&' [] (codes "page=1&page_size=1000") tt

query-split :
    (ps : List Text) (c : ℕ) (rest : Text)
    → All (All (IsPlain b'&')) ps
    → join ps (codes "&") ≡ c ∷ rest
    → split_byte b'&' [] (with_page (c ∷ rest)) ≡ ps ++ added
query-split [] c rest h e = absurd (let p : [] ≡ c ∷ rest = unfold join in e in cc)
query-split (t ∷ ts) c rest h e =
    subst (λ s. split_byte b'&' [] (s ++ codes "&page=1&page_size=1000") ≡ (t ∷ ts) ++ added) e
      (rw (join-added t ts) (
        split_byte-join b'&' t (ts ++ added)
          (h.0, All-append (All (IsPlain b'&')) ts added h.1 added-IsPlain) refl))

-- When the client's query has a parameter to forward, a shard gets the client's parameters but page
-- and page_size, in their order, then page=1 and page_size=1000.
pub split_byte-shard_query :
    (raw : Text) (c : ℕ) (rest : Text)
    → strip_pagination_params raw ≡ c ∷ rest
    → split_byte b'&' [] (shard_query raw) ≡ filter_params (split_byte b'&' [] raw) ++ added
unfolding shard_query strip_pagination_params
split_byte-shard_query [] c rest h = absurd (cc)
split_byte-shard_query (b ∷ raw) c rest h =
    let ps = filter_params (split_byte b'&' [] (b ∷ raw)) in
    rw h (
      query-split ps c rest
        (filter_params-All (All (IsPlain b'&')) (split_byte b'&' [] (b ∷ raw))
          (split_byte-All b'&' [] (b ∷ raw) tt))
        h)
