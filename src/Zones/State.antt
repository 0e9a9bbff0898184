-- ===== src/Zones/State.antt =====
-- The class `MemoryManager` of src/include/utils.h, its constructor, and the containers that it uses.
use lsm_based_on_zns_ssd.Base.{
  ℕ, zero, suc, ◌+◌, ◌-◌, ◌*◌, ◌/◌, Bool, true, false, if◌then◌else◌, ◌==◌, List, [], ◌∷◌, Option,
  none, some, ◌>>=◌, length, to_u32,
}
use lsm_based_on_zns_ssd.Cache.Queues.{QueueCache, queue_cache, get}
use lsm_based_on_zns_ssd.Cache.Lru.{LruCache, lru_cache}

abbrev pub maximum_num_of_open_zone : ℕ
maximum_num_of_open_zone = 16

abbrev pub default_sstable_size : ℕ
default_sstable_size = 67_108_864

abbrev pub default_page_size : ℕ
default_page_size = 16_384

pub record ZoneMeta : Type 0 where
  pub start : ℕ
  pub write_ptr : ℕ
  pub end : ℕ
  pub valid_table_num : ℕ
  pub deleted_table : List ℕ

pub data ZoneErr : Type 0 where
  no_such_table zones_all_full not_in_full_queue valid_table_wrong : ZoneErr

-- What the manager asks of others, with the arguments as the code gives them: calls of femu.c, a task
-- for a worker of the pool, the wait for a future, and messages.
pub data Event : Type 0 where
  femu_read_call femu_write_call : (len offset : ℕ) → (wait : Bool) → Event
  femu_reset_call : (len offset : ℕ) → Event
  enqueue_write : (worker len offset : ℕ) → Event
  wait_table : (level num : ℕ) → Event
  zone_err : ZoneErr → Event

-- A map of the standard library is the function that looks a key up, a set the list of its elements in the
-- order in which an iteration meets them. `complete_table` says which futures there are. `events` is what
-- was asked of others so far, the latest first.
pub record MemoryManager : Type 0 where
  pub mapping_table : List (ℕ → Option ℕ)
  pub remapping_table : ℕ → Option (ℕ × ℕ)
  pub complete_table : List (ℕ → Bool)
  pub page_cache : LruCache
  pub zone_metas : List ZoneMeta
  pub zone_num : ℕ
  pub zone_cap : ℕ
  pub open_zone_num : ℕ
  pub open_zone : List ℕ
  pub which_zone : ℕ
  pub empty_zone : QueueCache
  pub full_zone : List ℕ
  pub reset_zones : List ℕ
  pub reset_times : ℕ
  pub read_num : ℕ
  pub events : List Event

abbrev pub assign {ℓ} : {A : Type ℓ} → (ℕ → A) → ℕ → A → ℕ → A
assign f key v k = if key == k then v else f k

-- `emplace` of a set, whose place in the order is not fixed, and `erase`.
abbrev pub contains : ℕ → List ℕ → Bool
contains z [] = false
contains z (x ∷ xs) = if x == z then true else contains z xs

unfoldable pub insert : ℕ → List ℕ → List ℕ
insert z xs = if contains z xs then xs else z ∷ xs

unfoldable pub erase : ℕ → List ℕ → List ℕ
erase z [] = []
erase z (x ∷ xs) = if x == z then xs else x ∷ erase z xs

abbrev pub log : Event → MemoryManager → MemoryManager
log e m = record m { events = e ∷ m.events }

-- The loop over the zones, with `k` left. The ends of zones lie below the capacity and do not wrap.
unfoldable pub fresh_metas : ℕ → ℕ → ℕ → List ZoneMeta
fresh_metas zone_cap zero i = []
fresh_metas zone_cap (suc k) i =
    record {
      start = i * zone_cap;
      write_ptr = i * zone_cap;
      end = (i + 1) * zone_cap - 1;
      valid_table_num = 0;
      deleted_table = [];
    }
    ∷ fresh_metas zone_cap k (i + 1)

-- The loop that opens zones, with `k` left.
unfoldable pub open_zones : ℕ → QueueCache → Option (List ℕ × QueueCache)
open_zones zero q = some ([], q)
open_zones (suc k) q = do
  (z, q₁) ← get (length q.queues) q
  (zs, q₂) ← open_zones k q₁
  some (z ∷ zs, q₂)

-- The constructor. `get_zns_meta` tells the size of a zone, the zones on a die and the capacity.
unfoldable pub memory_manager : ℕ → ℕ → ℕ → Option MemoryManager
unfolding fresh_metas open_zones
memory_manager zone_cap zones_per_die capacity = do
  let zone_num = to_u32 (capacity / zone_cap)
  q ← queue_cache (zone_num / zones_per_die) zones_per_die zone_num
  (zs, q') ← open_zones maximum_num_of_open_zone q
  some (record {
    mapping_table = (λ n. none) ∷ [];
    remapping_table = λ s. none;
    complete_table = (λ n. false) ∷ [];
    page_cache = lru_cache 64_000;
    zone_metas = fresh_metas zone_cap zone_num 0;
    zone_num = zone_num;
    zone_cap = zone_cap;
    open_zone_num = maximum_num_of_open_zone;
    open_zone = zs;
    which_zone = 0;
    empty_zone = q';
    full_zone = [];
    reset_zones = [];
    reset_times = 0;
    read_num = 0;
    events = [];
  })
