-- ===== src/Net/Channel/Handle.antt =====
-- handleEvents delivers what waits, once and in order.
use libiak.Prelude.{
  ◌≡◌, refl, Bool, true, false, List, [], ◌∷◌, ◌++◌, some, ap, ap₂, ◌∙◌, if◌then◌else◌,
}
use libiak.Net.Channel.{
  Channel, Callbacks, Event, closes, errors, reads, writes, fire, handle_events,
}

-- The callbacks of a connection change its interest and its `readable_` and `writeable_` flags, and
-- leave alone which events wait.
pub record IsQuiet (f : Channel → Channel) : Type 0 where
  pub keeps_close : (c : Channel) → (f c).rclose ≡ c.rclose
  pub keeps_error : (c : Channel) → (f c).rerror ≡ c.rerror
  pub keeps_read : (c : Channel) → (f c).rread ≡ c.rread
  pub keeps_write : (c : Channel) → (f c).rwrite ≡ c.rwrite
  pub keeps_actived : (c : Channel) → (f c).actived ≡ c.actived

-- All four callbacks are set.
abbrev pub all_set : (Event → Channel → Channel) → Callbacks
all_set calls e = some (calls e)

abbrev waiting : Bool → Event → List Event
waiting b e = if b then e ∷ [] else []

-- The events that wait, in the order in which handleEvents looks at them.
abbrev pub pending : Channel → List Event
pending c =
    waiting c.rclose closes
    ++ (waiting c.rerror errors ++ (waiting c.rread reads ++ waiting c.rwrite writes))

-- The flags of a channel after some of the four steps: those that are cleared, and the rest.
record Flags (c : Channel) (k e r w : Bool) : Type 0 where
  close_flag : c.rclose ≡ k
  error_flag : c.rerror ≡ e
  read_flag : c.rread ≡ r
  write_flag : c.rwrite ≡ w
  not_actived : c.actived ≡ false

quiet-Flags :
    (f : Channel → Channel) (c : Channel) (k e r w : Bool)
    → IsQuiet f
    → Flags c k e r w
    → Flags (f c) k e r w
quiet-Flags f c k e r w q v = record {
  close_flag = q.keeps_close c ∙ v.close_flag;
  error_flag = q.keeps_error c ∙ v.error_flag;
  read_flag = q.keeps_read c ∙ v.read_flag;
  write_flag = q.keeps_write c ∙ v.write_flag;
  not_actived = q.keeps_actived c ∙ v.not_actived;
}

-- One step: the callback is called if the flag is set, and the flag is cleared.
fire-Flags :
    (calls : Event → Channel → Channel) (flag flag' : Bool) (ev : Event) (old c : Channel)
    (k e r w : Bool)
    → IsQuiet (calls ev)
    → flag ≡ flag'
    → (flag ≡ false → Flags old k e r w)
    → Flags c k e r w
    → ((fire (all_set calls) flag ev old c).1 ≡ waiting flag' ev)
      × Flags (fire (all_set calls) flag ev old c).0 k e r w
fire-Flags calls true flag' ev old c k e r w q same h v =
    (ap (λ b. waiting b ev) same, quiet-Flags (calls ev) c k e r w q v)
fire-Flags calls false flag' ev old c k e r w q same h v = (ap (λ b. waiting b ev) same, h refl)

Flags-pending : (c : Channel) → Flags c false false false false → pending c ≡ []
Flags-pending c v = ap₂ ◌++◌ (ap (λ b. waiting b closes) v.close_flag) (
    ap₂ ◌++◌ (ap (λ b. waiting b errors) v.error_flag)
      (ap₂ ◌++◌ (ap (λ b. waiting b reads) v.read_flag) (ap (λ b. waiting b writes) v.write_flag)))

module _ (calls : Event → Channel → Channel) (q : (e : Event) → IsQuiet (calls e))
    (d : Channel) where
  close_step :
      (k e r w : Bool)
      → Flags d k e r w
      → let (d', called) = fire (all_set calls) d.rclose closes d (record d { rclose = false }) in
        (called ≡ waiting k closes) × Flags d' false e r w
  close_step k e r w v =
      fire-Flags calls d.rclose k closes d (record d { rclose = false }) false e r w (q closes)
        v.close_flag
        (λ z. record {
          close_flag = z;
          error_flag = v.error_flag;
          read_flag = v.read_flag;
          write_flag = v.write_flag;
          not_actived = v.not_actived;
        })
        (record {
          close_flag = refl;
          error_flag = v.error_flag;
          read_flag = v.read_flag;
          write_flag = v.write_flag;
          not_actived = v.not_actived;
        })

  error_step :
      (k e r w : Bool)
      → Flags d k e r w
      → let (d', called) = fire (all_set calls) d.rerror errors d (record d { rerror = false }) in
        (called ≡ waiting e errors) × Flags d' k false r w
  error_step k e r w v =
      fire-Flags calls d.rerror e errors d (record d { rerror = false }) k false r w (q errors)
        v.error_flag
        (λ z. record {
          close_flag = v.close_flag;
          error_flag = z;
          read_flag = v.read_flag;
          write_flag = v.write_flag;
          not_actived = v.not_actived;
        })
        (record {
          close_flag = v.close_flag;
          error_flag = refl;
          read_flag = v.read_flag;
          write_flag = v.write_flag;
          not_actived = v.not_actived;
        })

  read_step :
      (k e r w : Bool)
      → Flags d k e r w
      → let (d', called) = fire (all_set calls) d.rread reads d (record d { rread = false }) in
        (called ≡ waiting r reads) × Flags d' k e false w
  read_step k e r w v =
      fire-Flags calls d.rread r reads d (record d { rread = false }) k e false w (q reads)
        v.read_flag
        (λ z. record {
          close_flag = v.close_flag;
          error_flag = v.error_flag;
          read_flag = z;
          write_flag = v.write_flag;
          not_actived = v.not_actived;
        })
        (record {
          close_flag = v.close_flag;
          error_flag = v.error_flag;
          read_flag = refl;
          write_flag = v.write_flag;
          not_actived = v.not_actived;
        })

  write_step :
      (k e r w : Bool)
      → Flags d k e r w
      → let (d', called) = fire (all_set calls) d.rwrite writes d (record d { rwrite = false }) in
        (called ≡ waiting w writes) × Flags d' k e r false
  write_step k e r w v =
      fire-Flags calls d.rwrite w writes d (record d { rwrite = false }) k e r false (q writes)
        v.write_flag
        (λ z. record {
          close_flag = v.close_flag;
          error_flag = v.error_flag;
          read_flag = v.read_flag;
          write_flag = z;
          not_actived = v.not_actived;
        })
        (record {
          close_flag = v.close_flag;
          error_flag = v.error_flag;
          read_flag = v.read_flag;
          write_flag = refl;
          not_actived = v.not_actived;
        })

-- handleEvents calls the callbacks of exactly the events that wait, each once, in the order close,
-- error, read, write; after it no event waits and the channel is not in the active list.
pub handle_events-delivers :
    (calls : Event → Channel → Channel) (c : Channel)
    → ((e : Event) → IsQuiet (calls e))
    → let (c', called) = handle_events (all_set calls) c in
      (called ≡ pending c) × (pending c' ≡ []) × (c'.actived ≡ false)
unfolding handle_events
handle_events-delivers calls c q =
    let start : Flags (record c { actived = false }) c.rclose c.rerror c.rread c.rwrite = record {
      close_flag = refl;
      error_flag = refl;
      read_flag = refl;
      write_flag = refl;
      not_actived = refl;
    } in
    let s1 = close_step calls q _ _ _ _ _ start in
    let s2 = error_step calls q _ _ _ _ _ s1.1 in
    let s3 = read_step calls q _ _ _ _ _ s2.1 in
    let s4 = write_step calls q _ _ _ _ _ s3.1 in
    (ap₂ ◌++◌ s1.0 (ap₂ ◌++◌ s2.0 (ap₂ ◌++◌ s3.0 s4.0)), Flags-pending _ s4.1, s4.1.not_actived)
