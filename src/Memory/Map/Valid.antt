-- ===== src/Memory/Map/Valid.antt =====
-- The invariant of the boot memory map, and that memory_map_add keeps it.
use utamo_os.Common.{
  ℕ, ◌+◌, ◌%◌, ◌≤◌, ◌<◌, ◌≡◌, refl, true, false, List, [], ◌∷◌, ◌++◌, some, arith, ◌==◌,
  if◌then◌else◌, ◌⊎◌, u64_max, ◌||◌, All, All-append, length, length-append,
}
use utamo_os.Common.Bits.{bit_or-clear_4096}
use utamo_os.Memory.Map.{
  Region, MemoryMap, region_limit, usable, bootloader_reclaimable, framebuffer, memory_map_init,
  requires_exclusive_region, starts_before_last, any_conflict, append_region, memory_map_add,
}

pub record IsRegion (r : Region) : Type 0 where
  pub positive : 0 < r.length
  pub no_wrap : r.base + r.length ≤ u64_max
  pub known : r.type ≤ framebuffer
  pub aligned :
      requires_exclusive_region r.type ≡ true → (r.base % 4096 ≡ 0) × (r.length % 4096 ≡ 0)

-- Two regions share no address, unless neither is usable or reclaimable.
abbrev pub Apart : Region → Region → Type 0
Apart p r =
    (requires_exclusive_region p.type || requires_exclusive_region r.type) ≡ true
    → (p.base + p.length ≤ r.base) ⊎ (r.base + r.length ≤ p.base)

abbrev pub AllApart : List Region → Type 0
AllApart [] = Unit
AllApart (p ∷ ps) = All (Apart p) ps × AllApart ps

abbrev pub IsSorted : List Region → Type 0
IsSorted [] = Unit
IsSorted (p ∷ []) = Unit
IsSorted (p ∷ q ∷ ps) = (p.base ≤ q.base) × IsSorted (q ∷ ps)

-- the bytes in regions of one type
abbrev pub bytes_of : ℕ → List Region → ℕ
bytes_of type [] = 0
bytes_of type (r ∷ rs) = (if r.type == type then r.length else 0) + bytes_of type rs

pub record IsWellFormed (m : MemoryMap) : Type 0 where
  pub regions_ok : All IsRegion m.regions
  pub apart : AllApart m.regions
  pub sorted : IsSorted m.regions
  pub few : length m.regions ≤ region_limit
  pub usable_sum : m.usable_bytes ≡ bytes_of usable m.regions
  pub reclaimable_sum : m.bootloader_reclaimable_bytes ≡ bytes_of bootloader_reclaimable m.regions
  pub no_overflow : (m.usable_bytes ≤ u64_max) × (m.bootloader_reclaimable_bytes ≤ u64_max)

bytes_of-append :
    (type : ℕ) (rs : List Region) (r : Region)
    → bytes_of type (rs ++ (r ∷ [])) ≡ bytes_of type rs + (if r.type == type then r.length else 0)
bytes_of-append type [] r = omega arith
bytes_of-append type (p ∷ ps) r = omega (arith, bytes_of-append type ps r)

AllApart-append :
    (ps : List Region) (r : Region)
    → AllApart ps
    → All (λ p. Apart p r) ps
    → AllApart (ps ++ (r ∷ []))
AllApart-append [] r a h = (tt, tt)
AllApart-append (p ∷ ps) r a h =
    (All-append (Apart p) ps (r ∷ []) a.0 (h.0, tt), AllApart-append ps r a.1 h.1)

IsSorted-append :
    (ps : List Region) (r : Region)
    → IsSorted ps
    → starts_before_last ps r ≡ false
    → IsSorted (ps ++ (r ∷ []))
unfolding starts_before_last
IsSorted-append [] r s h = tt
IsSorted-append (p ∷ []) r s h = (ground arith, tt)
IsSorted-append (p ∷ q ∷ ps) r s h = (s.0, IsSorted-append (q ∷ ps) r s.1 h)

any_conflict-Apart :
    (ps : List Region) (r : Region)
    → All IsRegion ps
    → r.base + r.length ≤ u64_max
    → any_conflict ps r ≡ false
    → All (λ p. Apart p r) ps
unfolding any_conflict
any_conflict-Apart [] r ok small h = tt
any_conflict-Apart (p ∷ ps) r ok small h =
    let wrap = ok.0.no_wrap in
    (λ e. ground arith, any_conflict-Apart ps r ok.1 small (ground arith))

-- What is appended, and the two sums.
record Appended (m : MemoryMap) (r : Region) (t : MemoryMap) : Type 0 where
  regions : t.regions ≡ m.regions ++ (r ∷ [])
  usable_bytes : t.usable_bytes ≡ m.usable_bytes + (if r.type == usable then r.length else 0)
  no_overflow : (t.usable_bytes ≤ u64_max) × (t.bootloader_reclaimable_bytes ≤ u64_max)
  reclaimable_bytes :
      t.bootloader_reclaimable_bytes
      ≡ m.bootloader_reclaimable_bytes + (if r.type == bootloader_reclaimable then r.length else 0)

append_region-Appended :
    (m : MemoryMap) (r : Region) {t : MemoryMap}
    → (m.usable_bytes ≤ u64_max) × (m.bootloader_reclaimable_bytes ≤ u64_max)
    → append_region m r ≡ some t
    → Appended m r t
unfolding append_region
append_region-Appended m r {t} small e = record {
  regions = ground arith;
  usable_bytes = ground arith;
  no_overflow = (ground arith, ground arith);
  reclaimable_bytes = ground arith;
}

memory_map_add-inv :
    (m : MemoryMap) (r : Region) {t : MemoryMap}
    → memory_map_add m r ≡ some t
    → IsRegion r
      × (length m.regions < region_limit)
      × (starts_before_last m.regions r ≡ false)
      × (any_conflict m.regions r ≡ false)
      × (append_region m r ≡ some t)
unfolding memory_map_add
memory_map_add-inv m r e = (
  record {
    positive = ground arith;
    no_wrap = ground arith;
    known = ground arith;
    aligned = λ x. ground (arith, bit_or-clear_4096 r.base r.length);
  },
  ground arith,
  ground arith,
  ground arith,
  ground arith,
)

-- memory_map_add keeps the map well formed: its regions do not wrap round, are sorted by base and
-- of known type, usable and reclaimable ones are page aligned and overlap no other region, there
-- are at most 512, and the two byte counts are the sums over the regions, below 2^64.
pub memory_map_add-IsWellFormed :
    (m : MemoryMap) (r : Region) {t : MemoryMap}
    → IsWellFormed m
    → memory_map_add m r ≡ some t
    → IsWellFormed t
memory_map_add-IsWellFormed m r {t} w e =
    let (ok, room, order, clear, done) = memory_map_add-inv m r e in
    let new = append_region-Appended m r w.no_overflow done in
    let apart = any_conflict-Apart m.regions r w.regions_ok ok.no_wrap clear in
    record {
      regions_ok = rw new.regions (All-append IsRegion m.regions (r ∷ []) w.regions_ok (ok, tt));
      apart = rw new.regions (AllApart-append m.regions r w.apart apart);
      sorted = rw new.regions (IsSorted-append m.regions r w.sorted order);
      few = rw new.regions (omega (arith, length-append m.regions (r ∷ [])));
      usable_sum =
          rw new.regions
            (omega (arith, new.usable_bytes, w.usable_sum, bytes_of-append usable m.regions r));
      reclaimable_sum = rw new.regions (
          omega (
            arith,
            new.reclaimable_bytes,
            w.reclaimable_sum,
            bytes_of-append bootloader_reclaimable m.regions r,
          ));
      no_overflow = new.no_overflow;
    }

pub memory_map_init-IsWellFormed : IsWellFormed memory_map_init
memory_map_init-IsWellFormed = record {
  regions_ok = tt;
  apart = tt;
  sorted = tt;
  few = omega arith;
  usable_sum = refl;
  reclaimable_sum = refl;
  no_overflow = (omega arith, omega arith);
}
