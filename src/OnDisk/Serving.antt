-- ===== src/OnDisk/Serving.antt =====
-- pkg/on_disk_storage/server.go: what a request for a file goes through.
use radio_chatter.Common.{List, ◌≡◌, ap, ◌∙◌, [], ◌∷◌, Bytes}
use radio_chatter.Middleware.{apply}
use radio_chatter.Middleware.Order.{apply-wrap_all}
use radio_chatter.Middleware.Contexts.{
  Loggers, Wire, Handler, request_id, logging, recover, println,
}
use radio_chatter.Middleware.Served.{served, request_id-served}

-- The file server of `net/http` on a directory, and the handlers of other packages: the recovery with
-- the method of its logger, and CORS without options.
pub record FileHandlers (Z : Loggers) : Type 0 where
  pub file_server : Bytes → Handler Z
  pub recovery_handler : (List Z.Panic → Wire Z → Wire Z) → Handler Z → Handler Z
  pub cors : Handler Z → Handler Z

module _ (Z : Loggers) (F : FileHandlers Z) (panics : Z.Logger → Z.Logger) where
  -- `server`, on one request, for which `uuid.New` makes the identifier `fresh`; `panics` names the
  -- logger of the panics.
  unfoldable pub file_handler : Z.Logger → Bytes → Bytes → Handler Z
  file_handler logger root_dir fresh = apply (F.file_server root_dir) (
      recover Z F.recovery_handler (panics logger)
      ∷ request_id Z fresh
      ∷ logging Z logger
      ∷ F.cors
      ∷ [])

  -- Behind the recovery a request for a file gets an identifier and a logger of its own, as the
  -- requests of `Router` do, whatever the file server answers.
  pub file_handler-served :
      (logger : Z.Logger) (root_dir fresh : Bytes)
      → file_handler logger root_dir fresh
        ≡ F.recovery_handler
            (println Z (panics logger))
            (served Z logger fresh (F.cors (F.file_server root_dir)))
  unfolding file_handler
  file_handler-served logger root_dir fresh =
      let behind = F.cors (F.file_server root_dir) in
      apply-wrap_all (F.file_server root_dir) _
      ∙ ap (F.recovery_handler (println Z (panics logger)))
          (λ i ctx w. request_id-served Z logger fresh behind ctx w i)
