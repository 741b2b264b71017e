-- ===== src/Downloaders/CloudDrive/Submit.antt =====
-- src/tuntu/downloaders/clouddrive.py: `CloudDriveClient.submit`.
pub mod Quiet
pub mod Errors
use tuntu.Prelude.{Bool, true, false, Option, none, some, Text, string_eq}
use tuntu.Errors.{Result, ok, err}
use tuntu.Downloaders.Client.{
  Reply, answers, raises, ClientError, rejected, result_unknown, SubmitResult,
}
use tuntu.Downloaders.Snapshot.{DirectorySnapshot}
use tuntu.Downloaders.Paths.{normalize_absolute_path}
use tuntu.Downloaders.CloudDrive.{
  Link, Stub, Texts, Config, RpcReply, replied, failed, submit_operation, map_rpc_error, metadata,
}
use tuntu.Downloaders.CloudDrive.Tree.{snapshot}
use tuntu.Magnet.{Urls, Magnet, canonical_uri, parse_magnet}

-- `isinstance(mapped, ResultUnknown)`: the snapshot goes with the error.
abbrev pub with_baseline : DirectorySnapshot → ClientError → ClientError
with_baseline baseline (result_unknown code b) = result_unknown code (some baseline)
with_baseline baseline e = e

module _ {W : Type 0} (texts : Texts) (urls : Urls) (stub : Stub W) (config : Config) where
  -- What the call gave.
  unfoldable pub submitted_as : Text → Text → DirectorySnapshot → RpcReply Bool → Reply SubmitResult
  submitted_as btih destination baseline (failed e) =
      raises (with_baseline baseline (map_rpc_error texts e submit_operation))
  submitted_as btih destination baseline (replied false) = raises (rejected "explicit_rejection")
  submitted_as btih destination baseline (replied true) =
      answers (record { btih = btih; destination = destination; baseline = baseline })

  abbrev pub add_offline :
      Magnet → Text → DirectorySnapshot → Reply Text × Link W → Reply SubmitResult × Link W
  add_offline magnet destination baseline (raises e, s) = (raises e, s)
  add_offline magnet destination baseline (answers token, s) =
      let (reply, world) =
        stub.add_offline_files token (canonical_uri urls magnet) destination
          config.check_folder_after_seconds s.world in
      (submitted_as magnet.btih destination baseline reply, record s { world = world })

  abbrev pub after_baseline :
      Magnet
      → Text
      → Option (Reply DirectorySnapshot × Link W)
      → Option (Reply SubmitResult × Link W)
  after_baseline magnet destination none = none
  after_baseline magnet destination (some (raises e, s)) = some (raises e, s)
  after_baseline magnet destination (some (answers baseline, s)) =
      some (add_offline magnet destination baseline (metadata texts stub config s))

  abbrev pub submit_parsed :
      Text → Result Magnet → Link W → Result (Option (Reply SubmitResult × Link W))
  submit_parsed destination (err e) s = err e
  submit_parsed destination (ok magnet) s =
      ok (after_baseline magnet destination (snapshot texts stub config destination true s))

  abbrev pub submit_to : Reply Text → Text → Link W → Result (Option (Reply SubmitResult × Link W))
  submit_to (raises e) magnet_uri s = ok (some (raises e, s))
  submit_to (answers destination) magnet_uri s =
      submit_parsed destination (parse_magnet urls magnet_uri) s

  -- `submit`. `err` is the `InvalidMagnet` of the link; `none` stands for a snapshot that does not
  -- end, and never comes.
  unfoldable pub submit :
      (magnet_uri path : Text) → Link W → Result (Option (Reply SubmitResult × Link W))
  submit magnet_uri path s = submit_to (normalize_absolute_path path) magnet_uri s
