-- ===== src/Ibv/Shutdown/Again.antt =====
-- What a shutdown releases, and what a second one does.
use hashpipe.Base.{◌≡◌, arith}
use hashpipe.Base.{Bool, none, some, [], ◌∷◌}
use hashpipe.Ibv.Shutdown.{
  Release, Context, close_socket, each_of, release_flows, release_verbs, release_buffers,
  release_tables, forget, shutdown,
}

-- After a shutdown, whatever failed in it, a second one makes no call but that it closes the
-- descriptor of the socket once more, if there is one.
shutdown-again :
    (fails fails' : Release → Bool) (c : Context)
    → (shutdown fails' (shutdown fails c).1).2
      ≡ (elim c.mcast_subscriber [ none ↦ [] | some s ↦ close_socket s ∷ [] ])
unfolding shutdown release_flows release_verbs release_buffers release_tables forget each_of
shutdown-again fails fails' c = ground arith
