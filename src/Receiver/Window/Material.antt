-- ===== src/Receiver/Window/Material.antt =====
-- What the pairing window keeps of a secret, and until when.
use android2pc_stream.Prelude.{
  ℕ, ◌≡◌, refl, sym, ap, ◌∙◌, inl, inr, ◌⊎◌, Bool, false, not, none, some, List, [], is_empty, leb,
  if◌then◌else◌, if_ind, codes, Option-cases,
}
use android2pc_stream.Platform.{Platform}
use android2pc_stream.Receiver.Config.{ReceiverConfig}
use android2pc_stream.Receiver.Link.{build_pairing_payload}
use android2pc_stream.Receiver.Link.Reading.{Showable, payload-Showable}
use android2pc_stream.Receiver.Control.{PairingReceiverState, state_of, state_value}
use android2pc_stream.Receiver.Window.{
  Window, Loaded, clear_pairing_material, set_status, show_payload, offer_of, qr_expiry,
  hide_to_tray, finish_of,
}
use android2pc_stream.Receiver.Window.Messages.{
  on_timer, on_receiver_status, on_close, is_streaming,
}
use android2pc_stream.Receiver.Window.Told.{Told}

-- Neither a code nor a payload nor an expiry.
pub record Cleared (w : Window) : Type 0 where
  pub no_code : w.qr ≡ none
  pub no_payload : w.pairing_payload ≡ []
  pub no_expiry : w.qr_expires ≡ 0

-- The code shows the payload, which is the link of a configuration that could be shown at `made_at`.
pub record Shown (platform : Platform) (w : Window) : Type 0 where
  pub config : ReceiverConfig
  pub made_at : ℕ
  pub link : w.pairing_payload ≡ build_pairing_payload platform config w.qr_expires made_at
  pub showable : Showable platform config w.qr_expires made_at
  pub code : w.qr ≡ some w.pairing_payload

pub record IsValid (platform : Platform) (w : Window) : Type 0 where
  pub material : Cleared w ⊎ Shown platform w
  pub exits : w.destroyed ≡ false → w.allow_exit ≡ false

module _ (platform : Platform) where
  pub Told-IsValid : (w after : Window) → Told w after → IsValid platform w → IsValid platform after
  Told-IsValid w after (message, same) v =
      rw same (record { material = material v.material; exits = v.exits })
    where
      material :
          Cleared w ⊎ Shown platform w
          → Cleared (set_status w message) ⊎ Shown platform (set_status w message)
      material (inl c) =
          inl (record { no_code = c.no_code; no_payload = c.no_payload; no_expiry = c.no_expiry })
      material (inr s) = inr (record {
        config = s.config;
        made_at = s.made_at;
        link = s.link;
        showable = s.showable;
        code = s.code;
      })

  -- A change of what the material and the exit do not depend on.
  pub Kept-IsValid :
      (w after : Window)
      → after.qr ≡ w.qr
      → after.pairing_payload ≡ w.pairing_payload
      → after.qr_expires ≡ w.qr_expires
      → (after.destroyed ≡ false → after.allow_exit ≡ false)
      → IsValid platform w
      → IsValid platform after
  Kept-IsValid w after q p x e v = record { material = material v.material; exits = e }
    where
      material : Cleared w ⊎ Shown platform w → Cleared after ⊎ Shown platform after
      material (inl c) = inl (record {
        no_code = q ∙ c.no_code;
        no_payload = p ∙ c.no_payload;
        no_expiry = x ∙ c.no_expiry;
      })
      material (inr s) = inr (record {
        config = s.config;
        made_at = s.made_at;
        link =
            p
            ∙ s.link
            ∙ ap (λ (e : ℕ). build_pairing_payload platform s.config e s.made_at) (sym x);
        showable = rw x s.showable;
        code = q ∙ s.code ∙ ap (λ (t : List ℕ). some t) (sym p);
      })

  pub Cleared-IsValid :
      (w : Window) → Cleared w → (w.destroyed ≡ false → w.allow_exit ≡ false) → IsValid platform w
  Cleared-IsValid w c e = record { material = inl c; exits = e }

  pub hide_to_tray-Cleared : (w : Window) (added : Bool) → Cleared (hide_to_tray w added)
  unfolding hide_to_tray
  hide_to_tray-Cleared w added = record { no_code = refl; no_payload = refl; no_expiry = refl }

  hide_to_tray-IsValid :
      (w : Window) (added : Bool) → IsValid platform w → IsValid platform (hide_to_tray w added)
  unfolding hide_to_tray
  hide_to_tray-IsValid w added v =
      Cleared-IsValid (hide_to_tray w added) (hide_to_tray-Cleared w added) v.exits

  module _ (encodes : List ℕ → Bool) where
    show_payload-IsValid :
        (w : Window) (config : ReceiverConfig) (expires now : ℕ)
        → IsValid platform w
        → IsValid platform (
            show_payload platform encodes w
              (build_pairing_payload platform config expires now)
              expires)
    unfolding show_payload
    show_payload-IsValid w config expires now v =
        let payload = build_pairing_payload platform config expires now in
        if_ind (IsValid platform) (is_empty payload) _ _
          (λ e.
            Cleared-IsValid _ (record { no_code = refl; no_payload = refl; no_expiry = refl })
              v.exits)
          (λ e.
            if_ind (IsValid platform) (not (encodes payload)) _ _
              (λ f.
                Cleared-IsValid _ (record { no_code = refl; no_payload = refl; no_expiry = refl })
                  v.exits)
              (λ f. record {
                material = inr (record {
                  config = config;
                  made_at = now;
                  link = refl;
                  showable =
                      payload-Showable platform config expires now
                        (λ h. cc (e, ap (λ (t : List ℕ). is_empty t) h));
                  code = refl;
                });
                exits = v.exits;
              }))

    pub offer_of-IsValid :
        (loaded : Loaded) (now : ℕ)
        → IsValid platform loaded.0
        → IsValid platform (offer_of platform encodes loaded now).0
    offer_of-IsValid (w, disk, none) now v = v
    offer_of-IsValid (w, disk, some config) now v =
        show_payload-IsValid w config (qr_expiry now) now v

  pub finish_of-IsValid :
      (loaded : Loaded) (added : Bool)
      → IsValid platform loaded.0
      → IsValid platform (finish_of loaded added).0
  finish_of-IsValid (w, disk, none) added v = v
  finish_of-IsValid (w, disk, some config) added v =
      let told =
        set_status w (codes "Setup saved. The helper is still available from the system tray.") in
      hide_to_tray-IsValid told added (Told-IsValid w told (_, refl) v)

  pub on_timer-IsValid :
      (w : Window) (now : ℕ) → IsValid platform w → IsValid platform (on_timer w now)
  unfolding on_timer
  on_timer-IsValid w now v = elim (Option-cases w.qr) [
    | inl e ↦ rw (e, on_timer) v
    | inr (text, e) ↦
        rw (e, on_timer)
          (if_ind (IsValid platform) (leb w.qr_expires now) _ _
            (λ f.
              Cleared-IsValid _ (record { no_code = refl; no_payload = refl; no_expiry = refl })
                v.exits)
            (λ f. v))
  ]

  pub on_receiver_status-IsValid :
      (w : Window) (raw : ℕ) → IsValid platform w → IsValid platform (on_receiver_status w raw)
  unfolding on_receiver_status
  on_receiver_status-IsValid w raw v =
      let clear = clear_pairing_material w in
      if_ind (IsValid platform) (not (leb raw (state_value PairingReceiverState.failed))) _ _
        (λ e. v)
        (λ e.
          Told-IsValid (if is_streaming (state_of raw) then clear else w) _ (_, refl)
            (if_ind (IsValid platform) (is_streaming (state_of raw)) _ _
              (λ f.
                Cleared-IsValid clear
                  (record { no_code = refl; no_payload = refl; no_expiry = refl }) v.exits)
              (λ f. v)))

  pub on_close-IsValid :
      (w : Window) (added : Bool) → IsValid platform w → IsValid platform (on_close w added)
  unfolding on_close
  on_close-IsValid w added v =
      if_ind (IsValid platform) (not w.allow_exit) _ _ (λ e. hide_to_tray-IsValid w added v)
        (λ e. Kept-IsValid w _ refl refl refl (λ h. cc) v)
