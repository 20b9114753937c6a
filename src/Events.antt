-- ===== src/Events.antt =====
-- MemoryEventBus of libs/common/pkg/events/memory/memory.go. The subscribers of a topic are a Go slice:
-- an array in memory, which other slices may point to, and a length. A handler is called in a goroutine
-- of its own, so a call of Publish is the handlers that it starts, in their order.
pub mod Spec
pub mod Slices
pub mod Simulation
pub mod Writes
pub mod Refinement
pub mod Shifting
pub mod Examples
use aetherium.Base.{
  ℕ, zero, suc, ◌+◌, ◌-◌, Bool, true, false, ◌==◌, ltb, Option, none, some, List, [], ◌∷◌, ◌++◌,
  if◌then◌else◌, take, drop, get_elem?, length, Text, text, text_eq, itoa, Map, lookup, insert,
}

pub record Subscriber (H : Type 0) : Type 0 where
  pub id : Text
  pub handler : H

-- An array: its elements as far as they were ever written, and its capacity.
pub record Array (H : Type 0) : Type 0 where
  pub cells : List (Subscriber H)
  pub cap : ℕ

pub record Slice : Type 0 where
  pub address : ℕ
  pub len : ℕ

-- Addresses from `next_address` on are free.
pub record EventBus (H : Type 0) : Type 0 where
  pub arrays : ℕ → Array H
  pub next_address : ℕ
  pub subscribers : Map Slice
  pub id_counter : ℕ

-- The answers of Unsubscribe.
pub data Unsubscribed : Type 0 where
  removed topic_not_found subscription_not_found : Unsubscribed

abbrev pub slice_len : Option Slice → ℕ
slice_len none = 0
slice_len (some s) = s.len

module _ {H : Type 0} where
  -- The subscribers that a slice shows.
  unfoldable pub elements : EventBus H → Slice → List (Subscriber H)
  elements bus s = take s.len (bus.arrays s.address).cells

  unfoldable pub write_array : ℕ → Array H → (ℕ → Array H) → ℕ → Array H
  write_array address a arrays k = if k == address then a else arrays k

  -- NewMemoryEventBus.
  unfoldable pub new_event_bus : EventBus H
  new_event_bus = record {
    arrays = λ k. record { cells = []; cap = 0 };
    next_address = 0;
    subscribers = [];
    id_counter = 0;
  }

  abbrev pub new_subscriber : ℕ → H → Subscriber H
  new_subscriber counter handler = record { id = text "sub-" ++ itoa counter; handler = handler }

  abbrev pub with_slice : Text → Slice → EventBus H → EventBus H
  with_slice topic s bus = record bus { subscribers = insert topic s bus.subscribers }

  -- `append` of one element where the capacity is used up: a copy in an array of the capacity that the
  -- runtime chooses.
  unfoldable pub append_new :
      (ℕ → ℕ) → Text → List (Subscriber H) → Subscriber H → EventBus H → EventBus H
  unfolding write_array
  append_new grown topic old x bus =
      with_slice topic (record { address = bus.next_address; len = length old + 1 })
        (record bus {
          arrays =
              write_array bus.next_address
                (record { cells = old ++ x ∷ []; cap = grown (length old + 1) }) bus.arrays;
          next_address = bus.next_address + 1;
        })

  -- `append` of one element within the capacity: it is written behind the slice.
  unfoldable pub append_within : Text → Slice → Subscriber H → EventBus H → EventBus H
  unfolding write_array
  append_within topic s x bus =
      let a = bus.arrays s.address in
      with_slice topic (record s { len = s.len + 1 })
        (record bus {
          arrays =
              write_array s.address
                (record a { cells = take s.len a.cells ++ x ∷ drop (s.len + 1) a.cells })
                bus.arrays;
        })

  unfoldable pub append_to : (ℕ → ℕ) → Text → Option Slice → Subscriber H → EventBus H → EventBus H
  unfolding append_new append_within elements
  append_to grown topic none x bus = append_new grown topic [] x bus
  append_to grown topic (some s) x bus =
      if ltb s.len (bus.arrays s.address).cap
      then append_within topic s x bus
      else append_new grown topic (elements bus s) x bus

  -- Subscribe. `grown` is the runtime's choice of a capacity.
  unfoldable pub subscribe : (ℕ → ℕ) → Text → H → EventBus H → Text × EventBus H
  unfolding append_to
  subscribe grown topic handler bus =
      let x = new_subscriber (bus.id_counter + 1) handler in
      (
        x.id,
        append_to grown topic (lookup topic bus.subscribers) x
            (record bus { id_counter = bus.id_counter + 1 }),
      )

  -- The loop of Unsubscribe.
  unfoldable pub index_of : Text → List (Subscriber H) → Option ℕ
  index_of id [] = none
  index_of id (x ∷ xs) =
      let rest : Option ℕ = elim (index_of id xs) [ none ↦ none | some i ↦ some (suc i) ] in
      if text_eq x.id id then some 0 else rest

  -- `append(subs[:i], subs[i+1:]...)`: what stands behind i moves down in the same array, whose last
  -- element stays where it is.
  unfoldable pub remove_at : Text → Slice → ℕ → EventBus H → EventBus H
  unfolding write_array elements
  remove_at topic s i bus =
      let a = bus.arrays s.address in
      let kept = take i (elements bus s) ++ drop (suc i) (elements bus s) in
      with_slice topic (record s { len = s.len - 1 })
        (record bus {
          arrays =
              write_array s.address (record a { cells = kept ++ drop (s.len - 1) a.cells })
                bus.arrays;
        })

  unfoldable pub remove_found : Text → Slice → Option ℕ → EventBus H → Unsubscribed × EventBus H
  unfolding remove_at
  remove_found topic s none bus = (subscription_not_found, bus)
  remove_found topic s (some i) bus = (removed, remove_at topic s i bus)

  unfoldable pub unsubscribe_from :
      Text → Text → Option Slice → EventBus H → Unsubscribed × EventBus H
  unfolding remove_found index_of
  unsubscribe_from topic id none bus = (topic_not_found, bus)
  unsubscribe_from topic id (some s) bus = remove_found topic s (index_of id (elements bus s)) bus

  unfoldable pub unsubscribe : Text → Text → EventBus H → Unsubscribed × EventBus H
  unfolding unsubscribe_from
  unsubscribe topic id bus = unsubscribe_from topic id (lookup topic bus.subscribers) bus

  -- Rounds of the loop of Publish from an index on: each reads the array as it then is.
  unfoldable pub handlers_from : List (Subscriber H) → ℕ → ℕ → List H
  handlers_from cells j zero = []
  handlers_from cells j (suc n) =
      let rest = handlers_from cells (suc j) n in
      elim (get_elem? cells j) [ none ↦ rest | some x ↦ x.handler ∷ rest ]

  unfoldable pub publish_rounds : Slice → ℕ → ℕ → EventBus H → List H
  unfolding handlers_from
  publish_rounds s j n bus = handlers_from (bus.arrays s.address).cells j n

  unfoldable pub publish_to : Option Slice → EventBus H → List H
  unfolding publish_rounds
  publish_to none bus = []
  publish_to (some s) bus = publish_rounds s 0 s.len bus

  -- Publish, where no other call comes between its rounds.
  unfoldable pub publish : Text → EventBus H → List H
  unfolding publish_to
  publish topic bus = publish_to (lookup topic bus.subscribers) bus

  unfoldable pub close_bus : EventBus H → EventBus H
  close_bus bus = record bus { subscribers = [] }

  unfoldable pub get_subscriber_count : Text → EventBus H → ℕ
  get_subscriber_count topic bus = slice_len (lookup topic bus.subscribers)
