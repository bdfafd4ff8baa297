-- ===== src/Stats/Network.antt =====
-- src/stats/StatsNetwork.cpp: the counters of the interfaces. What the system says of the
-- interfaces' addresses and the rows of the database are parameters.
pub mod Polls
use istatserverlinux.Prelude.{
  ℕ, zero, suc, ◌+◌, ◌-◌, Bool, true, false, not, ◌&&◌, ◌||◌, List, [], ◌∷◌, ◌++◌, Option, none,
  some, ◌==◌, if◌then◌else◌, length,
}
use istatserverlinux.Prelude.Int.{ℤ, pos}
use istatserverlinux.Text.{Bytes, codes, str_eq, is_prefix}
use istatserverlinux.Stats.{Floats, Sample, NetData, NetworkInfo}
use istatserverlinux.Stats.Schedule.{SampleIndex, prepare_update}
use istatserverlinux.Stats.History.{push_sample}
use istatserverlinux.Prelude.Outcome.{Outcome}
use istatserverlinux.Stats.Histories.{Histories, update_histories}
use istatserverlinux.Stats.Window.{fold_interval}
use istatserverlinux.Stats.Items.{has_key, change_first, stored_samples, change_at, since}

-- `ready` is 1 once the first update is over; `index` is sampleIndex[0].
pub record Network : Type 0 where
  pub ready : Bool
  pub index : SampleIndex
  pub session : ℕ
  pub history_enabled : Bool
  pub items : List NetworkInfo

abbrev pub device_of : NetworkInfo → Bytes
device_of item = item.device

-- One line of /proc/net/dev: the name, the bytes received and the bytes sent.
pub record Row : Type 0 where
  pub dev : Bytes
  pub download : ℕ
  pub upload : ℕ

abbrev pub ignored_interface : Bytes → Bool
ignored_interface key =
    str_eq key (codes "lo")
    || str_eq key (codes "lo0")
    || str_eq key (codes "nic")
    || is_prefix (codes "virbr") key
    || is_prefix (codes "ath0") key

abbrev pub activate : NetworkInfo → NetworkInfo
activate item = record item { active = true }

module _ (f : Floats) where
  abbrev pub count_interface : SampleIndex → ℕ → ℕ → NetworkInfo → NetworkInfo
  count_interface index upload download item = record item {
    active = true;
    last_up = upload;
    last_down = download;
    samples =
        change_at 0
          (push_sample (record {
            sample_id = index.sample_id;
            time = index.time;
            values = record {
              d = f.of_ull (since item.last_down download);
              u = f.of_ull (since item.last_up upload);
            };
          }))
          item.samples;
  }

module _ (addresses : List NetworkInfo → List NetworkInfo)
    (rows : Bytes → ℕ → List (Sample NetData)) where
  abbrev pub new_interface : Network → Bytes → NetworkInfo
  new_interface s key = record {
    active = false;
    device = key;
    addresses = [];
    last_down = 0;
    last_up = 0;
    samples = stored_samples s.history_enabled (rows key);
  }

  -- `addresses` is updateAddresses, which begins the addresses of all items anew.
  unfoldable pub create_interface : Bytes → Network → Network
  unfolding has_key str_eq
  create_interface key s =
      if str_eq key (codes "lo") || str_eq key (codes "lo0")
      then s
      else if has_key device_of s.items key
      then s
      else record s { session = s.session + 1; items = addresses (new_interface s key ∷ s.items) }

  module _ (f : Floats) where
    unfoldable pub process_interface : Bytes → ℕ → ℕ → Network → Network
    unfolding create_interface change_first is_prefix
    process_interface key upload download s =
        if ignored_interface key
        then s
        else (let t = create_interface key s in
            record t {
              items =
                  change_first device_of
                    (if t.ready then count_interface f t.index upload download else activate)
                    t.items key;
            })

    abbrev listed : List Bytes → Bytes → Bool
    listed [] dev = false
    listed (a ∷ active) dev = if str_eq a dev then true else listed active dev

    -- With no active interface known none is left out.
    abbrev pub is_down : List Bytes → Bytes → Bool
    is_down active_infs dev = not (length active_infs == 0) && not (listed active_infs dev)

    abbrev pub update_row : List Bytes → Row → Network → Network
    update_row active_infs row s =
        if is_down active_infs row.dev
        then s
        else process_interface row.dev row.upload row.download s

    -- update, on the lines that fscanf reads
    unfoldable pub update_interfaces : List Bytes → List Row → Network → Network
    unfolding process_interface str_eq
    update_interfaces active_infs [] s = s
    update_interfaces active_infs (row ∷ rest) s =
        update_interfaces active_infs rest (update_row active_infs row s)

abbrev pub passivate : List NetworkInfo → List NetworkInfo
passivate [] = []
passivate (item ∷ items) = record item { active = false } ∷ passivate items

unfoldable pub prepare_network : Network → Network
prepare_network s =
    if s.ready then record s { index = prepare_update s.index; items = passivate s.items } else s

module _ (f : Floats) where
  abbrev pub add_net : NetData → NetData → NetData
  add_net sums v = record { d = f.add sums.d v.d; u = f.add sums.u v.u }

  unfoldable pub history_item_network : SampleIndex → List (Sample NetData) → NetData × Bool
  unfolding fold_interval
  history_item_network index from =
      let (sums, count) = fold_interval add_net index (record { d = pos 0; u = pos 0 }) from in
      if count == 0
      then (sums, true)
      else (record { d = f.div sums.d (f.of_ull count); u = f.div sums.u (f.of_ull count) }, false)

-- updateHistory, from sampleIndex[0]; the clock is read anew for each interval.
unfoldable pub update_network_history :
    Floats
    → ℕ
    → (ℕ → ℕ)
    → SampleIndex
    → Histories NetworkInfo NetData
    → Outcome (Histories NetworkInfo NetData)
unfolding update_histories history_item_network
update_network_history f =
    update_histories (λ item. item.samples) (λ samples item. record item { samples = samples })
      device_of (history_item_network f)
