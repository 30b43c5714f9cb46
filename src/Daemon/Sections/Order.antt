-- ===== src/Daemon/Sections/Order.antt =====
-- While a thread of src/dimmitd.c has the lock, what it read of the controller stays what it is.
use dimmit.Base.{◌≡◌, ◌≢◌, refl, sym, ap, ◌∙◌, Bool, true, false, none, some}
use dimmit.Ddc.{Platform}
use dimmit.Controller.{DisplayController}
use dimmit.Daemon.Threads.{Client, main_thread, input_thread, worker, client}
use dimmit.Daemon.Ownership.{client-injective, to-false}
use dimmit.Daemon.Sections
use dimmit.Daemon.Sections.{
  Job, ClientPlace, outside, entered, copied, adjusted, leaving, WorkerPlace, asking, at_loop,
  serving, waiting, returned, Sections, put, woken, written, served, Move, begun, Moves, here, next,
}

module _ {W : Type 0} where
  abbrev inside : {c : Client} → ClientPlace W c → Bool
  inside outside = false
  inside _ = true

  abbrev holds : WorkerPlace W → Bool
  holds at_loop = true
  holds (serving copy) = true
  holds _ = false

  -- What a client has read is the controller.
  abbrev Current : {c : Client} → DisplayController W → ClientPlace W c → Type 0
  Current ctrl (copied job copy) = copy ≡ ctrl
  Current ctrl _ = Unit

  abbrev WorkerCurrent : DisplayController W → WorkerPlace W → Type 0
  WorkerCurrent ctrl (serving copy) = copy ≡ ctrl
  WorkerCurrent ctrl _ = Unit

  pub record Orderly (s : Sections W) : Type 0 where
    by_worker : holds s.worker_at ≡ true → s.lock ≡ some worker
    by_client : (c : Client) → inside (s.client_at c) ≡ true → s.lock ≡ some (client c)
    pub worker_current : WorkerCurrent s.ctrl s.worker_at
    pub client_current : (c : Client) → Current s.ctrl (s.client_at c)

  outside-Current :
      {c : Client} (ctrl : DisplayController W) (place : ClientPlace W c)
      → inside place ≡ false
      → Current ctrl place
  outside-Current ctrl outside e = tt
  outside-Current ctrl (entered job) e = tt
  outside-Current ctrl (copied job copy) e = cc e
  outside-Current ctrl adjusted e = tt
  outside-Current ctrl leaving e = tt

  idle-WorkerCurrent :
      (ctrl : DisplayController W) (place : WorkerPlace W)
      → holds place ≡ false
      → WorkerCurrent ctrl place
  idle-WorkerCurrent ctrl asking e = tt
  idle-WorkerCurrent ctrl at_loop e = tt
  idle-WorkerCurrent ctrl (serving copy) e = cc e
  idle-WorkerCurrent ctrl waiting e = tt
  idle-WorkerCurrent ctrl returned e = tt

  woken-holds : (place : WorkerPlace W) → holds place ≡ false → holds (woken place) ≡ false
  unfolding woken
  woken-holds asking e = e
  woken-holds at_loop e = e
  woken-holds (serving copy) e = e
  woken-holds waiting e = refl
  woken-holds returned e = e

  -- What holds of the new place of one client and of the places of the others holds of all.
  put-all :
      (P : (d : Client) → ClientPlace W d → Type 0) (c : Client) (place : ClientPlace W c)
      (places : (d : Client) → ClientPlace W d)
      → P c place
      → ((d : Client) → c ≢ d → P d (places d))
      → (d : Client) → P d (put c place places d)
  unfolding put
  put-all P main_thread place places h others main_thread = h
  put-all P main_thread place places h others input_thread = others input_thread (λ e. cc e)
  put-all P input_thread place places h others main_thread = others main_thread (λ e. cc e)
  put-all P input_thread place places h others input_thread = h

  module _ (s : Sections W) (o : Orderly s) where
    no_worker : (c : Client) → s.lock ≡ some (client c) → holds s.worker_at ≡ false
    no_worker c own = to-false _ (λ h. cc (own, o.by_worker h))

    no_client :
        (c : Client)
        → s.lock ≡ some (client c)
        → (d : Client) → c ≢ d
        → inside (s.client_at d) ≡ false
    no_client c own d ne = to-false _ (λ h. ne (client-injective (sym own ∙ o.by_client d h)))

    -- A client with the lock may move on and change the controller.
    acts-Orderly :
        (c : Client) (place : ClientPlace W c) (at : WorkerPlace W) (ctrl : DisplayController W)
        (world : W)
        → s.lock ≡ some (client c)
        → Current ctrl place
        → holds at ≡ false
        → Orderly (record s {
          ctrl = ctrl;
          world = world;
          worker_at = at;
          client_at = put c place s.client_at;
        })
    acts-Orderly c place at ctrl world own current idle = record {
      by_worker = λ h. cc (idle, h);
      by_client =
          put-all (λ d x. inside x ≡ true → s.lock ≡ some (client d)) c place s.client_at (λ h. own)
            (λ d ne h. o.by_client d h);
      worker_current = idle-WorkerCurrent ctrl at idle;
      client_current =
          put-all (λ d x. Current ctrl x) c place s.client_at current
            (λ d ne. outside-Current ctrl (s.client_at d) (no_client c own d ne));
    }

    released-Orderly :
        (at : WorkerPlace W) (ctrl : DisplayController W) (world : W)
        → s.lock ≡ some worker
        → holds at ≡ false
        → Orderly (record s { ctrl = ctrl; world = world; lock = none; worker_at = at })
    released-Orderly at ctrl world own idle = record {
      by_worker = λ h. cc (idle, h);
      by_client = λ c h. cc (own, o.by_client c h);
      worker_current = idle-WorkerCurrent ctrl at idle;
      client_current =
          λ c. outside-Current ctrl (s.client_at c) (to-false _ (λ h. cc (own, o.by_client c h)));
    }

    kept-Orderly :
        (at : WorkerPlace W) (ctrl : DisplayController W) (world : W)
        → s.lock ≡ some worker
        → WorkerCurrent ctrl at
        → Orderly (record s { ctrl = ctrl; world = world; worker_at = at })
    kept-Orderly at ctrl world own current = record {
      by_worker = λ h. own;
      by_client = λ c h. o.by_client c h;
      worker_current = current;
      client_current =
          λ c. outside-Current ctrl (s.client_at c) (to-false _ (λ h. cc (own, o.by_client c h)));
    }

    own_client :
        (c : Client) (place : ClientPlace W c)
        → s.client_at c ≡ place
        → inside place ≡ true
        → s.lock ≡ some (client c)
    own_client c place e h = o.by_client c (ap inside e ∙ h)

    own_worker :
        (place : WorkerPlace W) → s.worker_at ≡ place → holds place ≡ true → s.lock ≡ some worker
    own_worker place e h = o.by_worker (ap holds e ∙ h)

module _ {W : Type 0} (p : Platform W) where
  written-Orderly :
      (s : Sections W) (c : Client) (job : Job c) (copy : DisplayController W)
      → Orderly s
      → s.lock ≡ some (client c)
      → Orderly (written p job copy s)
  unfolding written
  written-Orderly s c (Sections.press f from) copy o own =
      acts-Orderly s o c adjusted s.worker_at _ s.world own tt (no_worker s o c own)
  written-Orderly s c Sections.reconcile copy o own =
      acts-Orderly s o main_thread leaving s.worker_at _ _ own tt (no_worker s o c own)

  Move-Orderly : {s s' : Sections W} → Move p s s' → Orderly s → Orderly s'
  unfolding served
  Move-Orderly (Sections.enter s c job free place) o = record {
    by_worker = λ h. cc (free, o.by_worker h);
    by_client =
        put-all (λ d x. inside x ≡ true → some (client c) ≡ some (client d)) c (entered job)
          s.client_at (λ h. refl) (λ d ne h. cc (free, o.by_client d h));
    worker_current = o.worker_current;
    client_current =
        put-all (λ d x. Current s.ctrl x) c (entered job) s.client_at tt
          (λ d ne. o.client_current d);
  }
  Move-Orderly (Sections.read s c job place) o =
      let own = own_client s o c (entered job) place refl in
      acts-Orderly s o c (copied job s.ctrl) s.worker_at s.ctrl s.world own refl
        (no_worker s o c own)
  Move-Orderly (Sections.write s c job copy place) o =
      written-Orderly s c job copy o (own_client s o c (copied job copy) place refl)
  Move-Orderly (Sections.signal s c place) o =
      let own = own_client s o c adjusted place refl in
      acts-Orderly s o c leaving (woken s.worker_at) s.ctrl s.world own tt
        (woken-holds s.worker_at (no_worker s o c own))
  Move-Orderly (Sections.unlock s c place) o =
      let own = own_client s o c leaving place refl in
      record {
        by_worker = λ h. cc (own, o.by_worker h);
        by_client =
            put-all (λ d x. inside x ≡ true → none ≡ some (client d)) c outside s.client_at
              (λ h. cc h) (λ d ne h. absurd (ne (client-injective (sym own ∙ o.by_client d h))));
        worker_current = o.worker_current;
        client_current =
            put-all (λ d x. Current s.ctrl x) c outside s.client_at tt (λ d ne. o.client_current d);
      }
  Move-Orderly (Sections.stop s) o = record {
    by_worker = o.by_worker;
    by_client = o.by_client;
    worker_current = o.worker_current;
    client_current = o.client_current;
  }
  Move-Orderly (Sections.worker_lock s free place) o = record {
    by_worker = λ h. refl;
    by_client = λ c h. cc (free, o.by_client c h);
    worker_current = tt;
    client_current = o.client_current;
  }
  Move-Orderly (Sections.worker_read s runs place) o =
      kept-Orderly s o (serving s.ctrl) s.ctrl s.world (own_worker s o at_loop place refl) refl
  Move-Orderly (Sections.worker_pass s copy place due) o =
      kept-Orderly s o at_loop _ _ (own_worker s o (serving copy) place refl) tt
  Move-Orderly (Sections.worker_wait s copy place idle) o =
      released-Orderly s o waiting _ _ (own_worker s o (serving copy) place refl) refl
  Move-Orderly (Sections.worker_wake s place) o = record {
    by_worker = λ h. cc h;
    by_client = o.by_client;
    worker_current = tt;
    client_current = o.client_current;
  }
  Move-Orderly (Sections.worker_return s stopped place) o =
      released-Orderly s o returned s.ctrl s.world (own_worker s o at_loop place refl) refl

  -- In every state that the threads come to, what a thread has read of the controller to write it
  -- back is what the controller is.
  pub Moves-Orderly :
      (c : DisplayController W) (w : W) {s : Sections W} → Moves p (begun c w) s → Orderly s
  unfolding begun
  Moves-Orderly c w here = record {
    by_worker = λ h. cc h;
    by_client = λ c h. cc h;
    worker_current = tt;
    client_current = λ c. tt;
  }
  Moves-Orderly c w (next r move) = Move-Orderly move (Moves-Orderly c w r)
