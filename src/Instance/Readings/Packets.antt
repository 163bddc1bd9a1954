-- ===== src/Instance/Readings/Packets.antt =====
-- What a payload of readings does to the values of a device, and what it stores and notifies.
use agro_daemon.Base.{
  ℕ, suc, ◌+◌, ◌*◌, ◌/◌, ◌%◌, ◌^◌, ◌<◌, ◌≡◌, refl, List, [], ◌∷◌, ◌++◌, length, All, arith, nat_eq,
  Bool-cases, inl, inr, ◌∙◌, ap,
}
use agro_daemon.Device.State.{Device, update_sensor}
use agro_daemon.Sensor.Series.Laws.{Reading, step, run}
use agro_daemon.Sensor.Kinds.{SensorTypeList}
use agro_daemon.Instance.Readings.{
  SensorType, Event, stored, notified, has_add_change, Updated, more, update_reading,
  update_readings,
}

-- The bytes of a reading in front of other bytes.
pub packet : SensorType → List ℕ → List ℕ
packet s bytes =
    s.type_ % 2 ^ 8
    ∷ s.type_ / 2 ^ 8 % 2 ^ 8
    ∷ s.type_ / 2 ^ 16
    ∷ s.index
    ∷ s.value % 2 ^ 8
    ∷ s.value / 2 ^ 8 % 2 ^ 8
    ∷ s.value / 2 ^ 16 % 2 ^ 8
    ∷ s.value / 2 ^ 24
    ∷ bytes

pub packets : List SensorType → List ℕ → List ℕ
packets [] tail = tail
packets (s ∷ sensors) tail = packet s (packets sensors tail)

-- The type has 24 bits, the value 32.
pub record Fits (s : SensorType) : Type 0 where
  pub type_bound : s.type_ < 2 ^ 24
  pub value_bound : s.value < 2 ^ 32

-- The readings, each with the time of its call of the clock and the flag of its type.
pub dated : SensorTypeList → (ℕ → ℕ) → List SensorType → List Reading
dated kinds times [] = []
dated kinds times (s ∷ sensors) =
    record {
      sensor = (s.type_, s.index);
      time = times 0;
      value = s.value;
      add_change = has_add_change kinds s.type_;
    }
    ∷ dated kinds (λ n. times (suc n)) sensors

pub stores : List Event → List SensorType
stores [] = []
stores (stored s time ∷ events) = s ∷ stores events
stores (notified s ∷ events) = stores events

pub notices : List Event → List SensorType
notices [] = []
notices (stored s time ∷ events) = notices events
notices (notified s ∷ events) = s ∷ notices events

short :
    {Endpoint : Type 0} (kinds : SensorTypeList) (times : ℕ → ℕ) (d : Device Endpoint)
    (tail : List ℕ)
    → length tail < 8
    → update_readings kinds times d tail ≡ record { count = 0; device = d; events = [] }
unfolding update_readings
short kinds times d [] h = refl
short kinds times d (a ∷ []) h = refl
short kinds times d (a ∷ b ∷ []) h = refl
short kinds times d (a ∷ b ∷ c ∷ []) h = refl
short kinds times d (a ∷ b ∷ c ∷ e ∷ []) h = refl
short kinds times d (a ∷ b ∷ c ∷ e ∷ f ∷ []) h = refl
short kinds times d (a ∷ b ∷ c ∷ e ∷ f ∷ g ∷ []) h = refl
short kinds times d (a ∷ b ∷ c ∷ e ∷ f ∷ g ∷ i ∷ []) h = refl
short kinds times d (a ∷ b ∷ c ∷ e ∷ f ∷ g ∷ i ∷ j ∷ tail) h = absurd (omega arith)

front :
    {Endpoint : Type 0} (kinds : SensorTypeList) (times : ℕ → ℕ) (d : Device Endpoint)
    (s : SensorType) (bytes : List ℕ)
    → Fits s
    → update_readings kinds times d (packet s bytes)
      ≡ more (update_reading kinds (times 0) d s) (
          update_readings kinds (λ n. times (suc n)) (update_reading kinds (times 0) d s).1.0 bytes)
unfolding update_readings more packet update_reading
front kinds times d s bytes h =
    let type_ : s.type_ % 2 ^ 8 + 2 ^ 8 * (s.type_ / 2 ^ 8 % 2 ^ 8) + 2 ^ 16 * (s.type_ / 2 ^ 16)
        ≡ s.type_ =
      omega (arith, h.type_bound) in
    let value : s.value % 2 ^ 8
          + 2 ^ 8 * (s.value / 2 ^ 8 % 2 ^ 8)
          + 2 ^ 16 * (s.value / 2 ^ 16 % 2 ^ 8)
          + 2 ^ 24 * (s.value / 2 ^ 24)
        ≡ s.value =
      omega (arith, h.value_bound) in
    rw (update_readings, packet, type_, value) refl

notices-update_reading :
    {Endpoint : Type 0} (kinds : SensorTypeList) (time : ℕ) (d : Device Endpoint) (s : SensorType)
    (events : List Event)
    → notices ((update_reading kinds time d s).1.1 ++ events) ≡ s ∷ notices events
unfolding update_reading notices
notices-update_reading kinds time d s events =
    elim (Bool-cases
      (update_sensor d s.type_ s.index time s.value (has_add_change kinds s.type_)).0) [
        | inl e ↦ rw e refl
        | inr e ↦ rw e refl
      ]

-- From a payload of readings whose types have 24 bits and whose values have 32, with less than eight
-- bytes behind them, a device takes exactly those readings in their order, each at the time that the
-- clock gives for it and with the flag of its sensor type; nothing else of the device changes, and
-- each reading is notified once, in the same order.
pub update_readings-packets :
    {Endpoint : Type 0} (kinds : SensorTypeList) (times : ℕ → ℕ) (d : Device Endpoint)
    (sensors : List SensorType) (tail : List ℕ)
    → All Fits sensors
    → length tail < 8
    → ((update_readings kinds times d (packets sensors tail)).device
        ≡ record d { slist = run d.slist (dated kinds times sensors) })
      × (notices (update_readings kinds times d (packets sensors tail)).events ≡ sensors)
unfolding packets dated run step notices more update_reading update_sensor
update_readings-packets kinds times d [] tail h h' = (
  ap (λ u. u.device) (short kinds times d tail h'),
  ap (λ u. notices u.events) (short kinds times d tail h'),
)
update_readings-packets kinds times d (s ∷ sensors) tail h h' =
    let d' = (update_reading kinds (times 0) d s).1.0 in
    let later = update_readings-packets kinds (λ n. times (suc n)) d' sensors tail h.1 h' in
    let first = front kinds times d s (packets sensors tail) h.0 in
    (
      ap (λ u. u.device) first ∙ later.0,
      ap (λ u. notices u.events) first
          ∙ notices-update_reading kinds (times 0) d s _
          ∙ ap (λ l. s ∷ l) later.1,
    )

length-stores :
    {Endpoint : Type 0} (kinds : SensorTypeList) (time : ℕ) (d : Device Endpoint) (s : SensorType)
    (rest : Updated Endpoint)
    → rest.count ≡ length (stores rest.events)
    → (more (update_reading kinds time d s) rest).count
      ≡ length (stores (more (update_reading kinds time d s) rest).events)
unfolding update_reading stores more
length-stores kinds time d s rest h =
    elim (Bool-cases
      (update_sensor d s.type_ s.index time s.value (has_add_change kinds s.type_)).0) [
        | inl e ↦ rw e (omega (arith, h))
        | inr e ↦ rw e h
      ]

-- Whatever bytes a device sends, the result of the update is the number of the readings that it
-- stores in the database.
pub update_readings-count :
    {Endpoint : Type 0} (kinds : SensorTypeList) (times : ℕ → ℕ) (d : Device Endpoint)
    (bytes : List ℕ)
    → (update_readings kinds times d bytes).count
      ≡ length (stores (update_readings kinds times d bytes).events)
unfolding update_readings stores
update_readings-count kinds times d [] = refl
update_readings-count kinds times d (a ∷ []) = refl
update_readings-count kinds times d (a ∷ b ∷ []) = refl
update_readings-count kinds times d (a ∷ b ∷ c ∷ []) = refl
update_readings-count kinds times d (a ∷ b ∷ c ∷ e ∷ []) = refl
update_readings-count kinds times d (a ∷ b ∷ c ∷ e ∷ f ∷ []) = refl
update_readings-count kinds times d (a ∷ b ∷ c ∷ e ∷ f ∷ g ∷ []) = refl
update_readings-count kinds times d (a ∷ b ∷ c ∷ e ∷ f ∷ g ∷ i ∷ []) = refl
update_readings-count kinds times d (a ∷ b ∷ c ∷ e ∷ f ∷ g ∷ i ∷ j ∷ bytes) =
    length-stores kinds (times 0) d _ _ (update_readings-count kinds (λ n. times (suc n)) _ bytes)
