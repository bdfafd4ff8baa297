-- ===== src/Stats/Pass/Numbers.antt =====
-- The numbers of the samples over the passes of src/Stats.cpp.
use istatserverlinux.Prelude.{
  ℕ, ◌+◌, ◌/◌, ◌%◌, Bool, true, false, List, [], ◌∷◌, if◌then◌else◌, length, ◌≡◌, refl, ◌∙◌, ap,
  arith, Bool-cases, inl, inr,
}
use istatserverlinux.Prelude.Outcome.{Outcome, done, ◌>>=◌}
use istatserverlinux.Stats.{Floats}
use istatserverlinux.Stats.Schedule.{SampleIndex, prepare_update, tick}
use istatserverlinux.Stats.Processes.{System}
use istatserverlinux.Stats.Pass.{Collectors, Tables, Inputs, update_system_stats, update_next_times}
use istatserverlinux.Stats.Pass.Once.{IsReady, third, update_system_stats_lem}

abbrev once_if : Bool → ℕ
once_if true = 1
once_if false = 0

third_lem : (n : ℕ) → (n + 1) / 3 ≡ n / 3 + once_if (third (n + 1))
third_lem n = elim (Bool-cases (third (n + 1))) [
  | inl e ↦ let multiple : (n + 1) % 3 ≡ 0 = ground (arith, e) in rw e (omega (arith, multiple))
  | inr e ↦ let not_one : ¬ ((n + 1) % 3 ≡ 0) = ground (arith, e) in rw e (omega (arith, not_one))
]

counted :
    (b : Bool) (i : SampleIndex)
    → (if b then prepare_update i else tick i).sample_id ≡ i.sample_id + once_if b
counted true i = refl
counted false i = omega arith

-- One pass more, for a collector that counts every third.
one_more :
    (n u id first last all : ℕ)
    → u ≡ n + 1
    → first ≡ id + once_if (third (n + 1))
    → last + u / 3 ≡ first + all
    → last + n / 3 ≡ id + all
one_more n u id first last all h k l =
    let next : u / 3 ≡ n / 3 + once_if (third (n + 1)) = ap (λ x. x / 3) h ∙ third_lem n in
    omega (arith, next, k, l)

module _ (f : Floats) (sys : System) (db : Tables) where
  -- The passes, with the time of the next sample behind each of them.
  unfoldable pub passes : List (Inputs × ℕ) → Collectors → Outcome Collectors
  unfolding update_system_stats update_next_times
  passes [] s = done s
  passes ((i, time) ∷ rest) s =
      update_system_stats f sys db i s >>= λ t. passes rest (update_next_times time t)

  next_times-IsReady : (time : ℕ) (s : Collectors) → IsReady s → IsReady (update_next_times time s)
  unfolding update_next_times
  next_times-IsReady time s r = record {
    network = r.network;
    activity = r.activity;
    disks = r.disks;
    labels = r.labels;
  }

  -- From collectors whose first update is over, with custom labels of two words, any number of passes
  -- comes to an end. The number of the sample of the processor, the load, the memory, the network and
  -- the activity has gone up by the number of passes; that of the batteries and the disks by the
  -- number of passes whose own number is a multiple of three; and that of the sensors by both.
  pub passes_lem :
      (runs : List (Inputs × ℕ)) (s : Collectors)
      → IsReady s
      → (t : Collectors) × (passes runs s ≡ done t)
        × (t.sample_id ≡ s.sample_id + length runs)
        × (t.cpu.track.index.sample_id ≡ s.cpu.track.index.sample_id + length runs)
        × (t.load.index.sample_id ≡ s.load.index.sample_id + length runs)
        × (t.memory.index.sample_id ≡ s.memory.index.sample_id + length runs)
        × (t.network.index.sample_id ≡ s.network.index.sample_id + length runs)
        × (t.activity.index.sample_id ≡ s.activity.index.sample_id + length runs)
        × (t.battery.index.sample_id + s.sample_id / 3
            ≡ s.battery.index.sample_id + t.sample_id / 3)
        × (t.disks.index.sample_id + s.sample_id / 3 ≡ s.disks.index.sample_id + t.sample_id / 3)
        × (t.sensors.gpus.sensors.index.sample_id + s.sample_id / 3
            ≡ s.sensors.gpus.sensors.index.sample_id + length runs + t.sample_id / 3)
  unfolding passes update_next_times
  passes_lem [] s r = (
    s,
    refl,
    omega arith,
    omega arith,
    omega arith,
    omega arith,
    omega arith,
    omega arith,
    refl,
    refl,
    omega arith,
  )
  passes_lem ((i, time) ∷ runs) s r =
      let (u, made, ready, p) = update_system_stats_lem f sys db i s r in
      let (t, rest, number, cpu, load, memory, network, activity, battery, disks, sensors) =
        passes_lem runs (update_next_times time u) (next_times-IsReady time u ready) in
      (
        t,
        rw made rest,
        omega (arith, number, p.number),
        omega (arith, cpu, ap (λ x. x.sample_id) p.cpu),
        omega (arith, load, ap (λ x. x.sample_id) p.load),
        omega (arith, memory, ap (λ x. x.sample_id) p.memory),
        omega (arith, network, ap (λ x. x.sample_id) p.network),
        omega (arith, activity, ap (λ x. x.sample_id) p.activity),
        one_more s.sample_id u.sample_id s.battery.index.sample_id u.battery.index.sample_id
            t.battery.index.sample_id (t.sample_id / 3) p.number
            (ap (λ x. x.sample_id) p.battery ∙ counted (third (s.sample_id + 1)) s.battery.index)
            battery,
        one_more s.sample_id u.sample_id s.disks.index.sample_id u.disks.index.sample_id
            t.disks.index.sample_id (t.sample_id / 3) p.number
            (ap (λ x. x.sample_id) p.disks ∙ counted (third (s.sample_id + 1)) s.disks.index) disks,
        omega (
          arith,
          one_more s.sample_id u.sample_id (s.sensors.gpus.sensors.index.sample_id + 1)
              u.sensors.gpus.sensors.index.sample_id t.sensors.gpus.sensors.index.sample_id
              (length runs + t.sample_id / 3) p.number
              (ap (λ x. x.sample_id) p.sensors
                ∙ counted (third (s.sample_id + 1)) (prepare_update s.sensors.gpus.sensors.index))
              (omega (arith, sensors)),
        ),
      )
