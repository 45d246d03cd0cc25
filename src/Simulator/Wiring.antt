-- ===== src/Simulator/Wiring.antt =====
-- The callbacks that loading a configuration leaves: those of main.py's devices lead to them.
use e3on_canserver.Base.{
  ℕ, zero, suc, ◌+◌, ◌≤◌, ◌<◌, ◌≡◌, refl, sym, ap, ◌∙◌, subst, ◌≢◌, ◌⊎◌, inl, inr, Option, none,
  some, List, [], ◌∷◌, ◌++◌, arith, ◌==◌, if◌then◌else◌, ==-refl, ==-false, if_ind, length,
  get_elem?, All,
}
use e3on_canserver.Base.Int.{ℤ}
use e3on_canserver.Base.Dict.{Dict, lookup, insert, lookup-insert}
use e3on_canserver.Service77.{s77_request_id_offset}
use e3on_canserver.Device.{SimulatedDevice, make_device, Channel, on_uds, on_s77, register}
use e3on_canserver.Bus.{register_rx}
use e3on_canserver.Main.{DeviceEntry, load_device, load_devices}
use e3on_canserver.Main.Dispatch.{LeaveFree}
use e3on_canserver.Simulator.Isolation.{IsWired, IsApart, IsAt}

-- Loading in two parts.
load_devices-append :
    (cd ce : ℤ) (n : ℕ) (es fs : List DeviceEntry) (callbacks : Dict (ℕ × Channel))
    → (load_devices cd ce n (es ++ fs) callbacks).1
      ≡ (load_devices cd ce (n + length es) fs (load_devices cd ce n es callbacks).1).1
unfolding load_devices
load_devices-append cd ce n [] fs callbacks =
    ap (λ m. (load_devices cd ce m fs callbacks).1) (omega arith)
load_devices-append cd ce n (e ∷ es) fs callbacks =
    load_devices-append cd ce (n + 1) es fs (register (load_device cd ce e) n callbacks)
    ∙ ap
        (λ m.
          (load_devices cd ce m fs
            (load_devices cd ce (n + 1) es (register (load_device cd ce e) n callbacks)).1).1)
        (omega arith)

lookup-register :
    (dev : SimulatedDevice) (n : ℕ) (callbacks : Dict (ℕ × Channel)) (id : ℕ)
    → lookup id (register dev n callbacks) ≡ (
        if dev.tx_id + s77_request_id_offset == id
        then some (n, on_s77)
        else if dev.tx_id == id
        then some (n, on_uds)
        else lookup id callbacks)
unfolding register register_rx
lookup-register dev n callbacks id =
    lookup-insert (dev.tx_id + s77_request_id_offset) id (n, on_s77)
      (insert dev.tx_id (n, on_uds) callbacks)
    ∙ rw (lookup-insert dev.tx_id id (n, on_uds) callbacks) refl

-- Devices that leave a CAN-ID free do not change its callback.
load_devices-lookup :
    (cd ce : ℤ) (n : ℕ) (es : List DeviceEntry) (callbacks : Dict (ℕ × Channel)) (id : ℕ)
    → LeaveFree id es
    → lookup id (load_devices cd ce n es callbacks).1 ≡ lookup id callbacks
unfolding load_devices load_device make_device
load_devices-lookup cd ce n [] callbacks id h = refl
load_devices-lookup cd ce n (e ∷ es) callbacks id h =
    load_devices-lookup cd ce (n + 1) es (register (load_device cd ce e) n callbacks) id h.1
    ∙ (lookup-register (load_device cd ce e) n callbacks id
        ∙ rw (==-false (e.tx + 2) id h.0.1, ==-false e.tx id h.0.0) refl)

abbrev NotTo : ℕ → Option (ℕ × Channel) → Type 0
NotTo k none = Unit
NotTo k (some (n, c)) = n ≢ k

-- No callback but those of two CAN-IDs leads to the device number `k`.
abbrev OnlyItsOwn : ℕ → ℕ → Dict (ℕ × Channel) → Type 0
OnlyItsOwn k tx callbacks =
    (id : ℕ) → id ≢ tx → id ≢ tx + s77_request_id_offset → NotTo k (lookup id callbacks)

register-OnlyItsOwn :
    (dev : SimulatedDevice) (n k tx : ℕ) (callbacks : Dict (ℕ × Channel))
    → (n ≢ k) ⊎ (dev.tx_id ≡ tx)
    → OnlyItsOwn k tx callbacks
    → OnlyItsOwn k tx (register dev n callbacks)
register-OnlyItsOwn dev n k tx callbacks h only id ne ne' =
    rw (lookup-register dev n callbacks id) (
      if_ind (NotTo k) (dev.tx_id + s77_request_id_offset == id) _ _
        (λ s77. elim h [
          | inl other_number ↦ other_number
          | inr same ↦
              let here : dev.tx_id + s77_request_id_offset ≡ id = ground arith in
              absurd (ne' (sym here ∙ ap (λ t. t + s77_request_id_offset) same))
        ])
        (λ other.
          if_ind (NotTo k) (dev.tx_id == id) _ _
            (λ uds. elim h [
              | inl other_number ↦ other_number
              | inr same ↦ let here : dev.tx_id ≡ id = ground arith in absurd (ne (sym here ∙ same))
            ])
            (λ other'. only id ne ne')))

load_devices-OnlyItsOwn :
    (cd ce : ℤ) (n k tx : ℕ) (es : List DeviceEntry) (callbacks : Dict (ℕ × Channel))
    → (n + length es ≤ k) ⊎ (k < n)
    → OnlyItsOwn k tx callbacks
    → OnlyItsOwn k tx (load_devices cd ce n es callbacks).1
unfolding load_devices
load_devices-OnlyItsOwn cd ce n k tx [] callbacks h only = only
load_devices-OnlyItsOwn cd ce n k tx (e ∷ es) callbacks h only =
    load_devices-OnlyItsOwn cd ce (n + 1) k tx es (register (load_device cd ce e) n callbacks)
      (elim h [ inl l ↦ inl (omega arith) | inr g ↦ inr (omega arith) ])
      (register-OnlyItsOwn (load_device cd ce e) n k tx callbacks
        (inl (elim h [ inl l ↦ λ q. omega arith | inr g ↦ λ q. omega arith ])) only)

-- The entry after those before it.
load_devices-place :
    (cd ce : ℤ) (n : ℕ) (before after : List DeviceEntry) (e : DeviceEntry)
    (callbacks : Dict (ℕ × Channel))
    → get_elem? (load_devices cd ce n (before ++ (e ∷ after)) callbacks).0 (length before)
      ≡ some (load_device cd ce e)
unfolding load_devices
load_devices-place cd ce n [] after e callbacks = refl
load_devices-place cd ce n (b ∷ before) after e callbacks =
    load_devices-place cd ce (n + 1) before after e (register (load_device cd ce b) n callbacks)

abbrev pub AllApart : ℕ → List DeviceEntry → Type 0
AllApart tx = All (λ e. IsApart e.tx tx)

abbrev IsDeviceApart : ℕ → Option SimulatedDevice → Type 0
IsDeviceApart tx none = Unit
IsDeviceApart tx (some dev) = IsApart dev.tx_id tx

load_devices-apart :
    (cd ce : ℤ) (n j tx : ℕ) (es : List DeviceEntry) (callbacks : Dict (ℕ × Channel))
    → AllApart tx es
    → IsDeviceApart tx (get_elem? (load_devices cd ce n es callbacks).0 j)
unfolding load_devices load_device make_device
load_devices-apart cd ce n j tx [] callbacks h = tt
load_devices-apart cd ce n zero tx (e ∷ es) callbacks h = h.0
load_devices-apart cd ce n (suc j) tx (e ∷ es) callbacks h =
    load_devices-apart cd ce (n + 1) j tx es (register (load_device cd ce e) n callbacks) h.1

load_devices-others_apart :
    (cd ce : ℤ) (n j : ℕ) (before after : List DeviceEntry) (e : DeviceEntry)
    (callbacks : Dict (ℕ × Channel))
    → AllApart e.tx before
    → AllApart e.tx after
    → j ≢ length before
    → IsDeviceApart e.tx (get_elem? (load_devices cd ce n (before ++ (e ∷ after)) callbacks).0 j)
unfolding load_devices load_device make_device
load_devices-others_apart cd ce n zero [] after e callbacks hb ha ne = absurd (ne refl)
load_devices-others_apart cd ce n (suc j) [] after e callbacks hb ha ne =
    load_devices-apart cd ce (n + 1) j e.tx after (register (load_device cd ce e) n callbacks) ha
load_devices-others_apart cd ce n zero (b ∷ before) after e callbacks hb ha ne = hb.0
load_devices-others_apart cd ce n (suc j) (b ∷ before) after e callbacks hb ha ne =
    load_devices-others_apart cd ce (n + 1) j before after e
      (register (load_device cd ce b) n callbacks) hb.1 ha (λ q. ne (ap suc q))

-- What the entries of a configuration must not share for the devices to be apart.
module _ (cd ce : ℤ) (before after : List DeviceEntry) (e : DeviceEntry)
    (apart_before : AllApart e.tx before) (apart_after : AllApart e.tx after) where
  loaded_callbacks :
      (load_devices cd ce 0 (before ++ (e ∷ after)) []).1
      ≡ (load_devices cd ce
          (length before + 1)
          after
          (register (load_device cd ce e) (length before) (load_devices cd ce 0 before []).1)).1
  unfolding load_devices
  loaded_callbacks =
      load_devices-append cd ce 0 before (e ∷ after) []
      ∙ ap (λ m. (load_devices cd ce m (e ∷ after) (load_devices cd ce 0 before []).1).1)
          (omega arith)

  free_after :
      (es : List DeviceEntry) → AllApart e.tx es → LeaveFree e.tx es × LeaveFree (e.tx + 2) es
  free_after [] h = (tt, tt)
  free_after (x ∷ es) h =
      let (u, v) = free_after es h.1 in
      (((h.0.0, h.0.2), u), ((h.0.1, λ q. h.0.0 (omega arith)), v))

  pub loaded-IsWired :
      IsWired (load_devices cd ce 0 (before ++ (e ∷ after)) []).1 (length before) e.tx
  unfolding load_device make_device lookup
  loaded-IsWired = rw loaded_callbacks record {
    uds_wired =
        load_devices-lookup cd ce (length before + 1) after
          (register (load_device cd ce e) (length before) (load_devices cd ce 0 before []).1) e.tx
          (free_after after apart_after).0
        ∙ (lookup-register (load_device cd ce e) (length before) (load_devices cd ce 0 before []).1
              e.tx
            ∙ rw (==-false (e.tx + 2) e.tx (omega arith), ==-refl) refl);
    s77_wired =
        load_devices-lookup cd ce (length before + 1) after
          (register (load_device cd ce e) (length before) (load_devices cd ce 0 before []).1)
          (e.tx + 2) (free_after after apart_after).1
        ∙ (lookup-register (load_device cd ce e) (length before) (load_devices cd ce 0 before []).1
              (e.tx + 2)
            ∙ rw ==-refl refl);
    others_wired = λ id k' c ne ne' h. subst (NotTo (length before)) h (
        load_devices-OnlyItsOwn cd ce (length before + 1) (length before) e.tx after _
          (inr (omega arith))
          (register-OnlyItsOwn (load_device cd ce e) (length before) (length before) e.tx _
            (inr refl)
            (load_devices-OnlyItsOwn cd ce 0 (length before) e.tx before [] (inl (omega arith))
              (λ i h h'. tt)))
          id ne ne');
  }

  pub loaded-IsAt :
      IsAt
        (load_devices cd ce 0 (before ++ (e ∷ after)) []).0
        (length before)
        e.tx
        (load_device cd ce e)
  unfolding load_device make_device
  loaded-IsAt = record {
    there = load_devices-place cd ce 0 before after e [];
    same_tx = refl;
    apart = λ j x ne h.
        subst (IsDeviceApart e.tx) h
          (load_devices-others_apart cd ce 0 j before after e [] apart_before apart_after ne);
  }
