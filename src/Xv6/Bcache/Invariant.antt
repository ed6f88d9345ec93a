-- ===== src/Xv6/Bcache/Invariant.antt =====
-- The invariant of the cache of bio.c and of the references to its buffers.
use os_project.Base.{
  update_here, update_other, ℕ, ◌+◌, ◌^◌, ◌<◌, ◌≡◌, ◌≢◌, inl, inr, refl, sym, ap, ◌∙◌, Bool, true,
  none, some, List, ◌∷◌, ◌++◌, ◌==◌, if◌then◌else◌, arith, update, sub32, Bool-cases, Option-cases,
  All, All-split, All-append, length, length-append,
}
use mathlib.Core.Path.{subst}
use os_project.Xv6.Bcache.{Buf, Bcache, find_cached, find_unused, used, recycled, bget, unlink}
use os_project.Xv6.Bcache.Search.{
  has, find_cached_lem, find_cached-none, find_unused_lem, unlink-has, has-unlink,
}
use os_project.Xv6.Bcache.References.{
  Reference, uses, Serves, IsOnce, uses-le, uses-append, unused_slot, Same, update_field,
  Same-Serves, Same-IsOnce, All_imp, All_both, counted_update, recycled-IsOnce,
}

pub record System : Type 0 where
  pub cache : Bcache
  pub references : List Reference

abbrev pub flags : Bool → Bool → Buf → Buf
flags valid dirty b = record b { valid = valid; dirty = dirty }

pub record Inv (y : System) : Type 0 where
  pub counted : (s : ℕ) → (y.cache.buf s).refcnt ≡ uses s y.references
  pub few : length y.references < 2 ^ 32
  pub served : All (Serves y.cache) y.references
  pub once : IsOnce y.cache

-- The buffer of a block that the cache has gets one more reference.
hit-Inv :
    (y : System) (s : ℕ) (r : Reference)
    → r.slot ≡ s
    → Inv y
    → length y.references + 1 < 2 ^ 32
    → Serves y.cache r
    → Inv (record {
      cache = record (y.cache) { buf = update y.cache.buf s (used (y.cache.buf s)) };
      references = r ∷ y.references;
    })
hit-Inv y s r at v few serves =
    let c' : Bcache = record (y.cache) { buf = update y.cache.buf s (used (y.cache.buf s)) } in
    let same : Same y.cache c' = record {
      devs = λ t. update_field (λ b. b.dev) y.cache.buf s (used (y.cache.buf s)) t refl;
      blocks = λ t. update_field (λ b. b.blockno) y.cache.buf s (used (y.cache.buf s)) t refl;
      kept = λ t h. h;
      old = λ t h. h;
    } in
    record {
      counted =
          counted_update y.cache.buf s (used (y.cache.buf s)) y.references (r ∷ y.references)
            v.counted (ground (arith, at, v.counted s, uses-le s y.references, few))
            (λ t ne. ground (arith, at, ne));
      few = ground (arith, few);
      served = (
        Same-Serves y.cache c' same r serves,
        All_imp (Serves y.cache) (Serves c') y.references (Same-Serves y.cache c' same) v.served,
      );
      once = Same-IsOnce y.cache c' same v.once;
    }

-- A buffer without references is taken for a block that no buffer has.
miss-Inv :
    (y : System) (s dev blockno : ℕ)
    → Inv y
    → length y.references + 1 < 2 ^ 32
    → has s y.cache.order ≡ true
    → (y.cache.buf s).refcnt ≡ 0
    → ((t : ℕ)
        → has t y.cache.order ≡ true
        → (y.cache.buf t).dev ≡ dev
        → (y.cache.buf t).blockno ≢ blockno)
    → Inv (record {
      cache = record (y.cache) { buf = update y.cache.buf s (recycled dev blockno) };
      references = record { slot = s; dev = dev; blockno = blockno } ∷ y.references;
    })
miss-Inv y s dev blockno v few linked free fresh =
    let b : Buf = recycled dev blockno in
    let c' : Bcache = record (y.cache) { buf = update y.cache.buf s b } in
    let nobody : uses s y.references ≡ 0 = sym (v.counted s) ∙ free in
    let elsewhere : (r : Reference) → (r.slot ≢ s) × Serves y.cache r → Serves c' r = λ r h.
      record {
        linked = h.1.linked;
        on_dev = ap (λ b. b.dev) (update_other y.cache.buf s b r.slot h.0) ∙ h.1.on_dev;
        on_block = ap (λ b. b.blockno) (update_other y.cache.buf s b r.slot h.0) ∙ h.1.on_block;
      } in
    record {
      counted =
          counted_update y.cache.buf s b y.references
            (record { slot = s; dev = dev; blockno = blockno } ∷ y.references) v.counted
            (ground (arith, nobody)) (λ t ne. ground (arith, ne));
      few = ground (arith, few);
      served = (
        record {
          linked = linked;
          on_dev = ap (λ b. b.dev) (update_here y.cache.buf s b);
          on_block = ap (λ b. b.blockno) (update_here y.cache.buf s b);
        },
        All_imp (λ r. (r.slot ≢ s) × Serves y.cache r) (Serves c') y.references elsewhere
            (All_both (λ r. r.slot ≢ s) (Serves y.cache) y.references
              (unused_slot s y.references nobody) v.served),
      );
      once = recycled-IsOnce y.cache s dev blockno fresh v.once;
    }

pub get-Inv :
    (y : System) (dev blockno s : ℕ) (c : Bcache)
    → Inv y
    → length y.references + 1 < 2 ^ 32
    → bget dev blockno y.cache ≡ some (s, c)
    → Inv (record {
      cache = c;
      references = record { slot = s; dev = dev; blockno = blockno } ∷ y.references;
    })
unfolding bget
get-Inv y dev blockno s c v few e =
    elim (Option-cases (find_cached dev blockno y.cache.buf y.cache.order)) [
      | inr (t, found) ↦
          let b : Buf = used (y.cache.buf t) in
          let (linked, on_dev, on_block) =
            find_cached_lem dev blockno y.cache.buf y.cache.order t found in
          let e' : some (t, record (y.cache) { buf = update y.cache.buf t b }) ≡ some (s, c) =
            rw (found, bget) at e in
          subst (λ p. Inv (got p)) (some_same e')
            (hit-Inv y t (record { slot = t; dev = dev; blockno = blockno }) refl v few
              (record { linked = linked; on_dev = on_dev; on_block = on_block }))
      | inl missing ↦ elim (Option-cases (find_unused y.cache.buf y.cache.order)) [
        | inr (t, unused) ↦
            let b : Buf = recycled dev blockno in
            let (linked, free) = find_unused_lem y.cache.buf y.cache.order t unused in
            let e' : some (t, record (y.cache) { buf = update y.cache.buf t b }) ≡ some (s, c) =
              rw (missing, unused, bget) at e in
            subst (λ p. Inv (got p)) (some_same e')
              (miss-Inv y t dev blockno v few linked free
                (λ i. find_cached-none dev blockno y.cache.buf y.cache.order i missing))
        | inl full ↦
            let e' : none ≡ some (s, c) = rw (missing, full, bget) at e in
            absurd (ground (arith, e'))
      ]
    ]
  where
    got : ℕ × Bcache → System
    got p = record {
      cache = p.1;
      references = record { slot = p.0; dev = dev; blockno = blockno } ∷ y.references;
    }

    some_same : {p : ℕ × Bcache} → some p ≡ some (s, c) → p ≡ (s, c)
    some_same h = ground (arith, h)

-- A change of the flags, or of the count and the order.
module _ (y : System) (before after : List Reference) (r : Reference)
    (at : y.references ≡ before ++ (r ∷ after)) (v : Inv y) where
  serves : All (Serves y.cache) before × All (Serves y.cache) (r ∷ after)
  serves = All-split (Serves y.cache) before (r ∷ after) (subst (All (Serves y.cache)) at v.served)

  pub mark-Inv :
      (valid dirty : Bool)
      → Inv (record y {
        cache = record (y.cache) {
          buf = update y.cache.buf r.slot (flags valid dirty (y.cache.buf r.slot));
        };
      })
  mark-Inv valid dirty =
      let b : Buf = flags valid dirty (y.cache.buf r.slot) in
      let c' : Bcache = record (y.cache) { buf = update y.cache.buf r.slot b } in
      let same : Same y.cache c' = record {
        devs = λ t. update_field (λ b. b.dev) y.cache.buf r.slot b t refl;
        blocks = λ t. update_field (λ b. b.blockno) y.cache.buf r.slot b t refl;
        kept = λ t h. h;
        old = λ t h. h;
      } in
      record {
        counted = λ t. update_field (λ b. b.refcnt) y.cache.buf r.slot b t refl ∙ v.counted t;
        few = v.few;
        served =
            All_imp (Serves y.cache) (Serves c') y.references (Same-Serves y.cache c' same)
              v.served;
        once = Same-IsOnce y.cache c' same v.once;
      }

  uses_at :
      (t : ℕ)
      → uses t y.references ≡ uses t before + ((if r.slot == t then 1 else 0) + uses t after)
  uses_at t = ap (uses t) at ∙ uses-append t before (r ∷ after)

  pub release-Inv :
      (n : ℕ)
      → n ≡ sub32 (y.cache.buf r.slot).refcnt 1
      → Inv (record {
        cache = record {
          buf = update y.cache.buf r.slot (record (y.cache.buf r.slot) { refcnt = n });
          order = if n == 0 then r.slot ∷ unlink r.slot y.cache.order else y.cache.order;
        };
        references = before ++ after;
      })
  release-Inv n e =
      let b : Buf = record (y.cache.buf r.slot) { refcnt = n } in
      let c' : Bcache = record {
        buf = update y.cache.buf r.slot b;
        order = if n == 0 then r.slot ∷ unlink r.slot y.cache.order else y.cache.order;
      } in
      let same : Same y.cache c' = record {
        devs = λ t. update_field (λ b. b.dev) y.cache.buf r.slot b t refl;
        blocks = λ t. update_field (λ b. b.blockno) y.cache.buf r.slot b t refl;
        kept = λ t h. ground (arith, h, unlink-has r.slot t y.cache.order h);
        old = λ t h. elim (Bool-cases (n == 0)) [
          | inl none_left ↦
              has-unlink r.slot t y.cache.order (ground (arith, h, none_left)) serves.1.0.linked
          | inr some_left ↦ ground (arith, h, some_left)
        ];
      } in
      record {
        counted =
            counted_update y.cache.buf r.slot b y.references (before ++ after) v.counted
              (ground (
                arith,
                e,
                v.counted r.slot,
                uses_at r.slot,
                uses-append r.slot before after,
                uses-le r.slot y.references,
                v.few,
              ))
              (λ t ne. ground (arith, ne, uses_at t, uses-append t before after));
        few = ground (
          arith,
          v.few,
          ap length at,
          length-append before (r ∷ after),
          length-append before after,
        );
        served =
            All_imp (Serves y.cache) (Serves c') (before ++ after) (Same-Serves y.cache c' same)
              (All-append (Serves y.cache) before after serves.0 serves.1.1);
        once = Same-IsOnce y.cache c' same v.once;
      }
