-- ===== src/Worker/Stop.antt =====
-- `stop` of crawling/libp2p_worker.go, `Shutdown` of crawling/crawler.go, and `Stop` of
-- crawling/crawlmanager.go.
use Prim.Native.String.{◌++◌ as ◌<>◌}
use ipfs_crawler.Prelude.{
  String, ◌≡◌, refl, sym, ap, ◌∙◌, Bool, true, false, List, [], ◌∷◌, ◌++◌, Option, none, some, All,
  inl, inr, Option-cases, Bool-cases, if◌then◌else◌,
}
use mathlib.Core.List.{append-nil, append_assoc}
use ipfs_crawler.Types.{Error}

-- What a worker has closed: its channel `closed`, the crawler's channel `shutdown`, the plugins whose
-- `Shutdown` was called, in order, and whether the host's `Close` was called.
pub record Closing : Type 0 where
  pub closed : Bool
  pub crawler_shutdown : Bool
  pub plugins_shutdown : List String
  pub host_closed : Bool

-- `crawler.Shutdown`: it closes the channel, unless that has happened, and returns no error.
unfoldable pub shutdown_crawler : Closing → Closing
shutdown_crawler st = record st { crawler_shutdown = true }

-- What the calls of `Shutdown` of the plugins and of `Close` of the host return.
pub record Endings : Type 0 where
  pub plugin : String → Option Error
  pub host : Option Error

-- The loop over the plugins, by name, and then the host.
unfoldable pub close_rest : Endings → List String → Closing → Option Error × Closing
close_rest ends [] st =
    let st' = record st { host_closed = true } in
    (elim ends.host [ some e ↦ some ("unable to close libp2p host: " <> e) | none ↦ none ], st')
close_rest ends (p ∷ ps) st =
    let st' = record st { plugins_shutdown = st.plugins_shutdown ++ p ∷ [] } in
    elim (ends.plugin p) [
      | some e ↦ (some ("unable to shut down plugin " <> p <> ": " <> e), st')
      | none ↦ close_rest ends ps st'
    ]

unfoldable pub stop : Endings → List String → Closing → Option Error × Closing
unfolding close_rest shutdown_crawler
stop ends plugins st =
    if st.closed
    then (none, st)
    else close_rest ends plugins (shutdown_crawler (record st { closed = true }))

-- A worker with its plugins, and what its `stop` comes to.
pub record Stoppable : Type 0 where
  pub ends : Endings
  pub plugins : List String
  pub state : Closing

-- `CrawlManager.Stop`: the errors are only logged.
unfoldable pub stop_all : List Stoppable → List Stoppable
unfolding stop
stop_all [] = []
stop_all (w ∷ ws) = record w { state = (stop w.ends w.plugins w.state).1 } ∷ stop_all ws

close_rest-closed :
    (ends : Endings) (plugins : List String) (st : Closing)
    → (close_rest ends plugins st).1.closed ≡ st.closed
unfolding close_rest
close_rest-closed ends [] st = refl
close_rest-closed ends (p ∷ ps) st = elim (Option-cases (ends.plugin p)) [
  | inr (e, q) ↦ rw (q, close_rest) refl
  | inl q ↦
      rw (q, close_rest)
        (close_rest-closed ends ps (record st { plugins_shutdown = st.plugins_shutdown ++ p ∷ [] }))
]

-- Without an error, the plugins that were left are shut down in order, and the host is closed.
close_rest-none :
    (ends : Endings) (plugins : List String) (st : Closing)
    → (close_rest ends plugins st).0 ≡ none
    → (close_rest ends plugins st).1
      ≡ record st { plugins_shutdown = st.plugins_shutdown ++ plugins; host_closed = true }
unfolding close_rest
close_rest-none ends [] st h =
    ap (λ ps. record st { plugins_shutdown = ps; host_closed = true })
      (sym (append-nil st.plugins_shutdown))
close_rest-none ends (p ∷ ps) st h = elim (Option-cases (ends.plugin p)) [
  | inr (e, q) ↦ absurd (let f : some _ ≡ none = rw (q, close_rest) at h in cc)
  | inl q ↦
      let st' = record st { plugins_shutdown = st.plugins_shutdown ++ p ∷ [] } in
      let rest : (close_rest ends ps st').0 ≡ none = rw (q, close_rest) at h in
      rw (q, close_rest)
        (close_rest-none ends ps st' rest
          ∙ ap (λ xs. record st { plugins_shutdown = xs; host_closed = true })
              (append_assoc st.plugins_shutdown (p ∷ []) ps))
]

-- A `stop` of an open worker that returns no error has shut down the crawler and every plugin, in
-- order, and closed the host.
pub stop_without_error :
    (ends : Endings) (plugins : List String) (st : Closing)
    → st.closed ≡ false
    → (stop ends plugins st).0 ≡ none
    → (stop ends plugins st).1 ≡ record {
      closed = true;
      crawler_shutdown = true;
      plugins_shutdown = st.plugins_shutdown ++ plugins;
      host_closed = true;
    }
unfolding stop shutdown_crawler
stop_without_error ends plugins st fresh h =
    let e : (close_rest ends plugins (shutdown_crawler (record st { closed = true }))).0 ≡ none =
      rw fresh at h in
    rw fresh (close_rest-none ends plugins (shutdown_crawler (record st { closed = true })) e)

stop-closed :
    (ends : Endings) (plugins : List String) (st : Closing) → (stop ends plugins st).1.closed ≡ true
unfolding stop shutdown_crawler
stop-closed ends plugins st = elim (Bool-cases st.closed) [
  | inl e ↦ rw e refl
  | inr e ↦ rw e (close_rest-closed ends plugins (shutdown_crawler (record st { closed = true })))
]

stop_closed :
    (ends : Endings) (plugins : List String) (st : Closing)
    → st.closed ≡ true
    → stop ends plugins st ≡ (none, st)
unfolding stop
stop_closed ends plugins st e = rw e refl

-- After a `stop`, whether it returned an error or not, a second one does nothing and returns no
-- error.
pub stop-stop :
    (ends ends' : Endings) (plugins : List String) (st : Closing)
    → stop ends' plugins (stop ends plugins st).1 ≡ (none, (stop ends plugins st).1)
stop-stop ends ends' plugins st = stop_closed ends' plugins _ (stop-closed ends plugins st)

-- The first plugin that fails ends the shutdown.
close_rest-fails :
    (ends : Endings) (before after : List String) (p : String) (e : Error) (st : Closing)
    → All (λ q. ends.plugin q ≡ none) before
    → ends.plugin p ≡ some e
    → (close_rest ends (before ++ p ∷ after) st).1
      ≡ record st { plugins_shutdown = st.plugins_shutdown ++ (before ++ p ∷ []) }
unfolding close_rest
close_rest-fails ends [] after p e st fine fails = rw (close_rest, fails) refl
close_rest-fails ends (q ∷ before) after p e st fine fails =
    let st' = record st { plugins_shutdown = st.plugins_shutdown ++ q ∷ [] } in
    rw (close_rest, fine.0)
      (close_rest-fails ends before after p e st' fine.1 fails
        ∙ ap (λ xs. record st { plugins_shutdown = xs })
            (append_assoc st.plugins_shutdown (q ∷ []) (before ++ p ∷ [])))

close_rest-ends :
    (ends : Endings) (plugins : List String) (st : Closing)
    → All (λ q. ends.plugin q ≡ none) plugins
    → (close_rest ends plugins st).1
      ≡ record st { plugins_shutdown = st.plugins_shutdown ++ plugins; host_closed = true }
unfolding close_rest
close_rest-ends ends [] st fine =
    ap (λ ps. record st { plugins_shutdown = ps; host_closed = true })
      (sym (append-nil st.plugins_shutdown))
close_rest-ends ends (p ∷ ps) st fine =
    let st' = record st { plugins_shutdown = st.plugins_shutdown ++ p ∷ [] } in
    rw (close_rest, fine.0)
      (close_rest-ends ends ps st' fine.1
        ∙ ap (λ xs. record st { plugins_shutdown = xs; host_closed = true })
            (append_assoc st.plugins_shutdown (p ∷ []) ps))

-- A worker before and after a stop. A closed worker stays as it is. Of an open one the crawler is
-- shut down; with plugins that all end, every plugin is shut down and the host is closed; otherwise
-- the plugins up to the first that fails are shut down, and the host stays as it is.
pub record IsStopped (w w' : Stoppable) : Type 0 where
  pub closed : w'.state.closed ≡ true
  pub stopped_before : w.state.closed ≡ true → w'.state ≡ w.state
  pub all_end :
      w.state.closed ≡ false
      → All (λ q. w.ends.plugin q ≡ none) w.plugins
      → w'.state ≡ record {
        closed = true;
        crawler_shutdown = true;
        plugins_shutdown = w.state.plugins_shutdown ++ w.plugins;
        host_closed = true;
      }
  pub one_fails :
      (before after : List String) (p : String) (e : Error)
      → w.state.closed ≡ false
      → w.plugins ≡ before ++ p ∷ after
      → All (λ q. w.ends.plugin q ≡ none) before
      → w.ends.plugin p ≡ some e
      → w'.state ≡ record {
        closed = true;
        crawler_shutdown = true;
        plugins_shutdown = w.state.plugins_shutdown ++ (before ++ p ∷ []);
        host_closed = w.state.host_closed;
      }

abbrev pub AllStopped : List Stoppable → List Stoppable → Type 0
AllStopped [] [] = Unit
AllStopped (w ∷ ws) (w' ∷ ws') = IsStopped w w' × AllStopped ws ws'
AllStopped _ _ = ⊥

stop-open :
    (ends : Endings) (plugins : List String) (st : Closing)
    → st.closed ≡ false
    → stop ends plugins st
      ≡ close_rest ends plugins (record st { closed = true; crawler_shutdown = true })
unfolding stop shutdown_crawler
stop-open ends plugins st fresh = rw fresh refl

stop-IsStopped :
    (w : Stoppable) → IsStopped w (record w { state = (stop w.ends w.plugins w.state).1 })
stop-IsStopped w =
    let st' : Closing = record w.state { closed = true; crawler_shutdown = true } in
    record {
      closed = stop-closed w.ends w.plugins w.state;
      stopped_before = λ c. ap (λ x. x.1) (stop_closed w.ends w.plugins w.state c);
      all_end = λ fresh fine.
          ap (λ x. x.1) (stop-open w.ends w.plugins w.state fresh)
          ∙ close_rest-ends w.ends w.plugins st' fine;
      one_fails = λ before after p e fresh parts fine fails.
          ap (λ x. x.1) (stop-open w.ends w.plugins w.state fresh)
          ∙ ap (λ ps. (close_rest w.ends ps st').1) parts
          ∙ close_rest-fails w.ends before after p e st' fine fails;
    }

-- `CrawlManager.Stop` stops every worker, in place, whatever errors come up. A worker that was closed
-- stays as it is. Of an open one the crawler is shut down; with plugins that all end, every plugin is
-- shut down in order and the host's `Close` is called; otherwise the plugins up to the first that
-- fails are shut down, and the host's `Close` is not called.
pub stop_all-AllStopped : (ws : List Stoppable) → AllStopped ws (stop_all ws)
unfolding stop_all
stop_all-AllStopped [] = tt
stop_all-AllStopped (w ∷ ws) = (stop-IsStopped w, stop_all-AllStopped ws)
