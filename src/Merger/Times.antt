-- ===== src/Merger/Times.antt =====
-- `map_chunk_time` of app/stt/merger.py stays within the source's stretch that the chunk covers.
use onramp_stt_api.Base.{
  ◌≡◌, Bool, true, false, Option, none, some, List, [], ◌∷◌, if◌then◌else◌, All, Bool-cases, inl,
  inr, arith,
}
use onramp_stt_api.Float.{Float, flt, fmin-le_right, le-fmin}
use onramp_stt_api.Db.{SourceMapping}
use onramp_stt_api.Merger.{within, mapped, map_after, last_end, map_chunk_time}

module _ {F : Type 0} ⦃fl : Float F⦄ (lo hi : F) where
  -- Between the bounds, both included.
  abbrev pub Between : F → Type 0
  Between t = (fl.le lo t ≡ true) × (fl.le t hi ≡ true)

  -- A mapping whose stretch of the source lies between the bounds, and begins before it ends.
  abbrev pub Inside : SourceMapping F → Type 0
  Inside m =
      (fl.le lo m.source_start_sec ≡ true)
      × (fl.le m.source_start_sec m.source_end_sec ≡ true)
      × (fl.le m.source_end_sec hi ≡ true)

  start-Between : (m : SourceMapping F) → Inside m → Between m.source_start_sec
  start-Between m (a, b, c) = (a, fl.le_trans m.source_start_sec m.source_end_sec hi b c)

  end-Between : (m : SourceMapping F) → Inside m → Between m.source_end_sec
  end-Between m (a, b, c) = (fl.le_trans lo m.source_start_sec m.source_end_sec a b, c)

  mapped-Between :
      (v : F) (m : SourceMapping F) → Inside m → within v m ≡ true → Between (mapped v m)
  mapped-Between v m (a, b, c) w =
      let past : fl.le m.chunk_start_sec v ≡ true = ground arith in
      let t = fl.add m.source_start_sec (fl.sub v m.chunk_start_sec) in
      let up =
        fl.add_nonneg m.source_start_sec (fl.sub v m.chunk_start_sec)
          (fl.sub_nonneg m.chunk_start_sec v past) in
      (
        fl.le_trans lo m.source_start_sec (mapped v m) a
            (le-fmin m.source_start_sec t m.source_end_sec up b),
        fl.le_trans (mapped v m) m.source_end_sec hi (fmin-le_right t m.source_end_sec) c,
      )

  either : (b : Bool) (x y : F) → Between x → Between y → Between (if b then x else y)
  either true x y p q = p
  either false x y p q = q

  -- A time that `map_after` finds lies between the bounds.
  abbrev Found : Option F → Type 0
  Found none = Unit
  Found (some t) = Between t

  map_after-Found :
      (v : F) (prev : SourceMapping F) (ms : List (SourceMapping F))
      → Inside prev
      → All Inside ms
      → Found (map_after v prev ms)
  unfolding map_after
  map_after-Found v prev [] p a = tt
  map_after-Found v prev (m ∷ ms) p (q, a) = elim (Bool-cases (within v m)) [
    | inl in_m ↦ rw in_m (mapped-Between v m q in_m)
    | inr out ↦ elim (Bool-cases (flt v m.chunk_start_sec)) [
      | inl before ↦
          rw (out, before)
            (either (fl.le (fl.sub v prev.chunk_end_sec) (fl.sub m.chunk_start_sec v))
              prev.source_end_sec m.source_start_sec (end-Between prev p) (start-Between m q))
      | inr past ↦ rw (out, past) (map_after-Found v m ms q a)
    ]
  ]

  last_end-Between :
      (m : SourceMapping F) (ms : List (SourceMapping F))
      → Inside m
      → All Inside ms
      → Between (last_end m ms)
  unfolding last_end
  last_end-Between m [] p a = end-Between m p
  last_end-Between m (n ∷ ms) p (q, a) = last_end-Between n ms q a

  or_edge :
      (v : F) (m : SourceMapping F) (ms : List (SourceMapping F)) (o : Option F)
      → Inside m
      → All Inside ms
      → Found o
      → Between (elim o [
        | some t ↦ t
        | none ↦ if flt v m.chunk_start_sec then m.source_start_sec else last_end m ms
      ])
  or_edge v m ms (some t) p a f = f
  or_edge v m ms none p a f =
      either (flt v m.chunk_start_sec) m.source_start_sec (last_end m ms) (start-Between m p)
        (last_end-Between m ms p a)

  -- Of a chunk with a mapping, whatever time of the chunk the provider names, before it, in a gap or
  -- past its end: the time in the source lies between two bounds that hold for all its mappings.
  pub mapped_within_source :
      (v : F) (m : SourceMapping F) (ms : List (SourceMapping F))
      → Inside m
      → All Inside ms
      → Between (map_chunk_time v (m ∷ ms))
  unfolding map_chunk_time
  mapped_within_source v m ms p a = elim (Bool-cases (within v m)) [
    | inl in_m ↦ rw in_m (mapped-Between v m p in_m)
    | inr out ↦ rw out (or_edge v m ms (map_after v m ms) p a (map_after-Found v m ms p a))
  ]
