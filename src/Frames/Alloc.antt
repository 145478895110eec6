-- ===== src/Frames/Alloc.antt =====
-- `alloc` of os/src/mm/frame_allocator.rs: no page has two owners, and none is lost.
use os.Base.{ℕ, ◌+◌, ◌-◌, ◌%◌, ◌≤◌, ◌<◌, ◌≡◌, refl, List, ◌∷◌, arith, within, covers}
use os.Frames.{StackFrameAllocator, mega_pages, giga_pages, to_ppn, recycle_range, push_units}
use os.Frames.Blocks.{Aligned, within-add, covers-push_units, length-push_units, Aligned-push_units}
use os.Frames.Pool.{Frame, recycled_at, recycled_pages, IsValid, recycle_range-Recycles}

-- What a successful allocation of `pages` pages promises: the block [ppn, ppn + pages) leaves the
-- free pages of `a`, and `b` has the rest.
pub record Takes (a : StackFrameAllocator) (ppn pages : ℕ) (b : StackFrameAllocator) : Type 0 where
  pub fresh :
      (p : ℕ)
      → recycled_at a p + within a.current a.end p
        ≡ recycled_at b p + within b.current b.end p + within ppn (ppn + pages) p
  pub fewer :
      (a.end - a.current) + recycled_pages a ≡ (b.end - b.current) + recycled_pages b + pages
  pub end_kept : b.end ≡ a.end
  pub grows : a.current ≤ b.current
  pub room : b.current ≤ b.end
  pub aligned : ppn % pages ≡ 0
  pub mega_aligned : Aligned mega_pages b.recycled_mega
  pub giga_aligned : Aligned giga_pages b.recycled_giga

-- A free page lies below the end, so that its number survives the cut to the width of a PPN.
pub below_end :
    {start : ℕ} {a : StackFrameAllocator} {live : List Frame} (p : ℕ)
    → IsValid start a live
    → 0 < recycled_at a p
    → to_ppn p ≡ p
below_end p v h = ground (arith, v.once p, v.fits)

pub take_std :
    (c e b : ℕ) (stds megas gigas : List ℕ)
    → c ≤ e
    → Aligned mega_pages megas
    → Aligned giga_pages gigas
    → Takes
        (record {
          current = c;
          end = e;
          recycled_std = b ∷ stds;
          recycled_mega = megas;
          recycled_giga = gigas;
        })
        b
        1
        (record {
          current = c;
          end = e;
          recycled_std = stds;
          recycled_mega = megas;
          recycled_giga = gigas;
        })
unfolding recycled_at covers recycled_pages
take_std c e b stds megas gigas h m g = record {
  fresh = λ p. omega arith;
  fewer = omega arith;
  end_kept = refl;
  grows = omega arith;
  room = h;
  aligned = omega arith;
  mega_aligned = m;
  giga_aligned = g;
}

pub take_mega :
    (c e b : ℕ) (stds megas gigas : List ℕ)
    → c ≤ e
    → Aligned mega_pages (b ∷ megas)
    → Aligned giga_pages gigas
    → Takes
        (record {
          current = c;
          end = e;
          recycled_std = stds;
          recycled_mega = b ∷ megas;
          recycled_giga = gigas;
        })
        b
        mega_pages
        (record {
          current = c;
          end = e;
          recycled_std = stds;
          recycled_mega = megas;
          recycled_giga = gigas;
        })
unfolding recycled_at covers recycled_pages
take_mega c e b stds megas gigas h m g = record {
  fresh = λ p. omega arith;
  fewer = omega arith;
  end_kept = refl;
  grows = omega arith;
  room = h;
  aligned = m.0;
  mega_aligned = m.1;
  giga_aligned = g;
}

pub take_giga :
    (c e b : ℕ) (stds megas gigas : List ℕ)
    → c ≤ e
    → Aligned mega_pages megas
    → Aligned giga_pages (b ∷ gigas)
    → Takes
        (record {
          current = c;
          end = e;
          recycled_std = stds;
          recycled_mega = megas;
          recycled_giga = b ∷ gigas;
        })
        b
        giga_pages
        (record {
          current = c;
          end = e;
          recycled_std = stds;
          recycled_mega = megas;
          recycled_giga = gigas;
        })
unfolding recycled_at covers recycled_pages
take_giga c e b stds megas gigas h m g = record {
  fresh = λ p. omega arith;
  fewer = omega arith;
  end_kept = refl;
  grows = omega arith;
  room = h;
  aligned = g.0;
  mega_aligned = m;
  giga_aligned = g.1;
}

-- Splitting the first 2M block: its first page goes out, the others are recycled.
pub take_split_mega :
    (c e b : ℕ) (stds megas gigas : List ℕ)
    → c ≤ e
    → Aligned mega_pages (b ∷ megas)
    → Aligned giga_pages gigas
    → Takes
        (record {
          current = c;
          end = e;
          recycled_std = stds;
          recycled_mega = b ∷ megas;
          recycled_giga = gigas;
        })
        b
        1
        (record {
          current = c;
          end = e;
          recycled_std = push_units b 1 1 511 stds;
          recycled_mega = megas;
          recycled_giga = gigas;
        })
unfolding recycled_at covers recycled_pages
take_split_mega c e b stds megas gigas h m g = record {
  fresh = λ p. ground (
    arith,
    covers-push_units b 1 1 511 p stds,
    within-add b (b + 1) (b + 512) p (omega arith) (omega arith),
  );
  fewer = omega (arith, length-push_units b 1 1 511 stds);
  end_kept = refl;
  grows = omega arith;
  room = h;
  aligned = omega arith;
  mega_aligned = m.1;
  giga_aligned = g;
}

-- A recycled 1G block seen as 512 recycled 2M blocks.
abbrev pub unpacked : ℕ → ℕ → ℕ → List ℕ → List ℕ → List ℕ → StackFrameAllocator
unpacked c e b stds megas gigas = record {
  current = c;
  end = e;
  recycled_std = stds;
  recycled_mega = b ∷ push_units b mega_pages 1 511 megas;
  recycled_giga = gigas;
}

pub Takes-unpacked :
    (c e b ppn pages : ℕ) (stds megas gigas : List ℕ) {out : StackFrameAllocator}
    → Takes (unpacked c e b stds megas gigas) ppn pages out
    → Takes
        (record {
          current = c;
          end = e;
          recycled_std = stds;
          recycled_mega = megas;
          recycled_giga = b ∷ gigas;
        })
        ppn
        pages
        out
unfolding recycled_at covers recycled_pages
Takes-unpacked c e b ppn pages stds megas gigas t = record {
  fresh = λ p. ground (
    arith,
    t.fresh p,
    covers-push_units b mega_pages 1 511 p megas,
    within-add b (b + 512) (b + 262144) p (omega arith) (omega arith),
  );
  fewer = omega (arith, t.fewer, length-push_units b mega_pages 1 511 megas);
  end_kept = t.end_kept;
  grows = t.grows;
  room = t.room;
  aligned = t.aligned;
  mega_aligned = t.mega_aligned;
  giga_aligned = t.giga_aligned;
}

pub unpacked-Aligned :
    (b : ℕ) (megas : List ℕ)
    → b % giga_pages ≡ 0
    → Aligned mega_pages megas
    → Aligned mega_pages (b ∷ push_units b mega_pages 1 511 megas)
unpacked-Aligned b megas h m =
    let k : b % mega_pages ≡ 0 = omega arith in (k, Aligned-push_units b 1 511 megas k m)

-- The block at the bump pointer, with the pages below its alignment recycled.
pub take_fresh :
    (a : StackFrameAllocator) (aligned pages : ℕ)
    → a.current ≤ aligned
    → aligned % pages ≡ 0
    → aligned + pages ≤ a.end
    → Aligned mega_pages a.recycled_mega
    → Aligned giga_pages a.recycled_giga
    → Takes a aligned pages
        (record (recycle_range a a.current aligned) { current = aligned + pages })
unfolding recycled_at recycled_pages
take_fresh a aligned pages h k r m g =
    let s = recycle_range-Recycles a a.current aligned h in
    record {
      fresh = λ p. ground (
        arith,
        s.adds p,
        s.end_kept,
        within-add a.current aligned a.end p h (omega arith),
        within-add aligned (aligned + pages) a.end p (omega arith) r,
      );
      fewer = ground (arith, s.pages, s.end_kept);
      end_kept = s.end_kept;
      grows = omega arith;
      room = ground (arith, s.end_kept);
      aligned = k;
      mega_aligned = s.mega_aligned m;
      giga_aligned = s.giga_aligned g;
    }

pub take_bump :
    (a : StackFrameAllocator)
    → a.current < a.end
    → Aligned mega_pages a.recycled_mega
    → Aligned giga_pages a.recycled_giga
    → Takes a a.current 1 (record a { current = a.current + 1 })
unfolding recycled_at recycled_pages
take_bump a h m g = record {
  fresh = λ p. ground arith;
  fewer = omega arith;
  end_kept = refl;
  grows = omega arith;
  room = omega arith;
  aligned = omega arith;
  mega_aligned = m;
  giga_aligned = g;
}
