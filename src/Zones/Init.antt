-- ===== src/Zones/Init.antt =====
-- The constructor of `MemoryManager` in src/include/utils.h: it returns a manager in order.
use lsm_based_on_zns_ssd.Base.{
  ℕ, zero, suc, ◌+◌, ◌*◌, ◌/◌, ◌≤◌, ◌<◌, ◌≡◌, refl, sym, ap, subst, ◌∙◌, arith, List, [], ◌∷◌,
  false, none, some, get_elem?, lt-get_elem?, le-mul_pos, div-of_parts, to_u32-eq, int_mod, u64_mod,
}
use mathlib.Core.Option.{some-injective}
use lsm_based_on_zns_ssd.Cache.Contents.{weight, weigh, one_each}
use lsm_based_on_zns_ssd.Cache.Turns.{Starts, queue_cache-Starts, numbers, weight-numbers}
use lsm_based_on_zns_ssd.Cache.Lru.{lru_cache}
use lsm_based_on_zns_ssd.Cache.Keys.{lru_cache-Holds, Holds}
use lsm_based_on_zns_ssd.Zones.State.{
  MemoryManager, ZoneMeta, fresh_metas, memory_manager, default_sstable_size,
  maximum_num_of_open_zone,
}
use lsm_based_on_zns_ssd.Zones.Slots.{IsZoneMeta, AreZones}
use lsm_based_on_zns_ssd.Zones.Free.{one_of, HasRoom, AreFree}
use lsm_based_on_zns_ssd.Zones.Placement.{place_of}
use lsm_based_on_zns_ssd.Zones.Place.{IsManager}
use lsm_based_on_zns_ssd.Zones.Opening.{
  fresh_meta, length-fresh_metas, get_elem?-fresh_metas, weight-length, numbers-once,
  numbers-inside, Opens, open_zones-Opens,
}

pub record Begins (slots zones_per_die capacity zone_num : ℕ) : Type 0 where
  pub m : MemoryManager
  pub returns : memory_manager (slots * default_sstable_size) zones_per_die capacity ≡ some m
  pub keeps : IsManager slots m
  pub zones : m.zone_num ≡ zone_num
  pub left_empty : m.empty_zone.size + maximum_num_of_open_zone ≡ zone_num
  pub no_table : (l n : ℕ) → place_of m.mapping_table l n ≡ none
  pub no_page : Holds m.page_cache []
  pub quiet : m.events ≡ []

module _ (slots half zones_per_die capacity : ℕ) (slots_pos : 0 < slots)
    (device : half * 2 * zones_per_die * (slots * default_sstable_size) < u64_mod)
    (fits : capacity / (slots * default_sstable_size) ≡ half * 2 * zones_per_die)
    (few : half * 2 * zones_per_die < int_mod) (half_pos : 0 < half) (die_pos : 0 < zones_per_die)
    (enough : maximum_num_of_open_zone ≤ half * 2 * zones_per_die) where
  abbrev zone_num : ℕ
  zone_num = half * 2 * zones_per_die

  abbrev metas : List ZoneMeta
  metas = fresh_metas (slots * default_sstable_size) zone_num 0

  fresh :
      (i : ℕ)
      → i < zone_num
      → get_elem? metas i ≡ some (fresh_meta (slots * default_sstable_size) i)
  fresh i h =
      get_elem?-fresh_metas (slots * default_sstable_size) zone_num 0 i h
      ∙ ap (λ n. some (fresh_meta (slots * default_sstable_size) n)) (omega arith)

  fresh-HasRoom : (i : ℕ) → i < zone_num → HasRoom metas i
  fresh-HasRoom i h = record {
    meta = fresh_meta (slots * default_sstable_size) i;
    here = fresh i h;
    room = omega (arith, slots_pos);
  }

  fresh-AreZones : AreZones slots metas
  fresh-AreZones = record {
    slots_pos = slots_pos;
    device = rw (length-fresh_metas (slots * default_sstable_size) zone_num 0) device;
    each = λ i mi e.
        let known : i < zone_num = omega (
          arith,
          lt-get_elem? metas i mi e,
          length-fresh_metas (slots * default_sstable_size) zone_num 0,
        ) in
        subst (IsZoneMeta slots i) (some-injective _ mi (sym (fresh i known) ∙ e)) (record {
          used = 0;
          begins = refl;
          ends = omega arith;
          at = omega arith;
          fits = omega arith;
        });
  }

  starts : Starts half zones_per_die zone_num
  starts =
      queue_cache-Starts half zones_per_die zone_num half_pos die_pos
        (omega (arith, few, le-mul_pos (half * 2) zones_per_die die_pos)) few (omega arith)

  opened : Opens maximum_num_of_open_zone starts.c
  opened = open_zones-Opens maximum_num_of_open_zone starts.c starts.keeps (
      omega
        (arith, starts.keeps.counted, starts.contents one_each, weight-numbers 0 zone_num, enough))

  opened-AreFree : AreFree metas opened.zs opened.rest
  opened-AreFree =
      let count : (i : ℕ)
          → weight (one_of i) opened.zs + weigh (one_of i) opened.rest.queues
            ≡ weight (one_of i) (numbers 0 zone_num) =
        λ i. sym (opened.contents (one_of i)) ∙ starts.contents (one_of i) in
      record {
        queue = opened.keeps;
        once = λ i. omega (arith, count i, numbers-once i 0 zone_num);
        roomy = λ i h.
            fresh-HasRoom i
              (omega (arith, numbers-inside i 0 zone_num (omega (arith, h, count i))));
      }

  none_yet : (l n : ℕ) → place_of ((λ k. none) ∷ []) l n ≡ none
  none_yet zero n = refl
  none_yet (suc l) n = refl

  dies : zone_num / zones_per_die ≡ half * 2
  dies = ap (λ x. x / zones_per_die) (omega arith) ∙ div-of_parts (half * 2) 0 zones_per_die die_pos

  abbrev born : MemoryManager
  born = record {
    mapping_table = (λ n. none) ∷ [];
    remapping_table = λ s. none;
    complete_table = (λ n. false) ∷ [];
    page_cache = lru_cache 64_000;
    zone_metas = metas;
    zone_num = zone_num;
    zone_cap = slots * default_sstable_size;
    open_zone_num = maximum_num_of_open_zone;
    open_zone = opened.zs;
    which_zone = 0;
    empty_zone = opened.rest;
    full_zone = [];
    reset_zones = [];
    reset_times = 0;
    read_num = 0;
    events = [];
  }

  -- On a device of an even number of dies with the same number of zones each, 16 zones at least and fewer than
  -- 2 ^ 31, and zones of a whole number of tables whose bytes have numbers below 2 ^ 64, the constructor returns a
  -- manager in order that holds no table, has an empty cache, has asked nothing of the device, and has opened 16
  -- zones.
  pub memory_manager-Begins : Begins slots zones_per_die capacity zone_num
  unfolding memory_manager lru_cache
  memory_manager-Begins = record {
    m = born;
    returns =
        rw (fits, to_u32-eq zone_num (omega arith), dies, starts.returns, opened.returns) refl;
    keeps = record {
      cap = refl;
      zones = fresh-AreZones;
      count = length-fresh_metas (slots * default_sstable_size) zone_num 0;
      few = omega arith;
      free = opened-AreFree;
      in_turn = omega (arith, opened.count);
      opens = opened.count;
      levels = refl;
      placement = record {
        forward = λ l n s e. absurd (ground (arith, none_yet l n, e));
        backward = λ l n s e. absurd (ground arith);
      };
      written = λ s p e. absurd (ground arith);
      pages = ([], lru_cache-Holds 64_000);
      pages_cap = omega arith;
    };
    zones = refl;
    left_empty = omega (
      arith,
      opened.keeps.counted,
      opened.contents one_each,
      starts.contents one_each,
      weight-numbers 0 zone_num,
      weight-length opened.zs,
      opened.count,
    );
    no_table = none_yet;
    no_page = lru_cache-Holds 64_000;
    quiet = refl;
  }
