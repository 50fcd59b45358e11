-- ===== src/Board/Reads.antt =====
-- What the board command of fpgactl/src/board.cpp does to the host.
use mrs_fpga_toolkit.Base.{
  ℕ, zero, suc, ◌≡◌, refl, ap, arith, Bool, true, false, all, List, [], ◌∷◌, Text, Option, none,
  some,
}
use mrs_fpga_toolkit.Machine.{M, Bus}
use mrs_fpga_toolkit.Machine.Keeps.{Keeps-bind, Keeps-on_throw, Keeps-pure, keeps_rules}
use mrs_fpga_toolkit.Machine.Hands.{Keeps-bind_hands}
use mrs_fpga_toolkit.Xdma.{Answer, done, failed, call, open_user}
use mrs_fpga_toolkit.Xdma.User.{
  XdmaUser, xdma_user, opened, close, read_reg, read_loop, finish_read, descriptor,
}
use mrs_fpga_toolkit.Common.{Host}
use mrs_fpga_toolkit.QspiTool.{user_bus, with_user}
use mrs_fpga_toolkit.Pcie.Quiet.Effects.{Effect, Audited, audited}
use mrs_fpga_toolkit.Pcie.Quiet.Effects.Bounds.{other-Permitted}
use mrs_fpga_toolkit.Pcie.Quiet.Effects.Probe.{Fine, print-Fine}
use mrs_fpga_toolkit.Board.{
  BoardAction, show, name, version, dna, temperature, voltages, BoardCommand, BoardAccess, Units,
  run_action, run_board,
}
use mrs_fpga_toolkit.Board.Drivers.{
  IsReading, ReadsBoard, board_access-Hands, value-Reads, temperature_sample-Reads,
  vccint_sample-Reads, vccaux_sample-Reads, product_id-Reads, image_version-Reads, snapshot-Reads,
}

-- No effect is permitted.
abbrev pub nothing : Effect → Bool
nothing e = false

module _ {S : Type 0} (host : Host S) (rounds : ℕ) where
  abbrev Reads : {A : Type 0} → M (Audited S) A → Type 0
  Reads m = Fine host nothing rounds m

  say-Reads : (text : Text) → Reads (call ((audited host).print text))
  say-Reads text = print-Fine host nothing rounds text

  finish_read-Reads :
      (address : ℕ) (a : Answer) (bytes : List ℕ)
      → Reads (finish_read (audited host).system address a bytes)
  finish_read-Reads address (done n) bytes = search keeps_rules
  finish_read-Reads address (failed e) bytes = search keeps_rules

  read_loop-Reads :
      (left : ℕ) (u : XdmaUser) (address : ℕ)
      → Reads (read_loop (audited host).system left u address)
  unfolding read_loop
  read_loop-Reads zero u address = search keeps_rules
  read_loop-Reads (suc left) u address =
      let further = read_loop-Reads left u address in
      let got =
        other-Permitted host nothing rounds ((audited host).system.pread (descriptor u.fd) address)
          (λ s. refl) in
      search (keeps_rules, finish_read-Reads) depth 9

  user_bus-Reads :
      (u : XdmaUser)
      → IsReading (λ s. all nothing s.effects ≡ true) (user_bus (audited host) rounds u)
  unfolding read_reg
  user_bus-Reads u address = let loop = read_loop-Reads rounds u address in search keeps_rules

  opened-Reads : (path : Text) (a : Answer) → Reads (opened (audited host).system path a)
  opened-Reads path (done fd) = search keeps_rules
  opened-Reads path (failed e) = search keeps_rules

  xdma_user-Reads : (path : Text) → Reads (xdma_user (audited host).system path)
  unfolding xdma_user
  xdma_user-Reads [] = search keeps_rules
  xdma_user-Reads (c ∷ path) =
      let answer =
        other-Permitted host nothing rounds ((audited host).system.open_file (c ∷ path) open_user)
          (λ s. refl) in
      search (keeps_rules, opened-Reads) depth 9

  close-Reads :
      (fd : Option ℕ) (path : Text)
      → Reads (close (audited host).system record { fd = fd; path = path })
  unfolding close
  close-Reads none path = Keeps-pure _
  close-Reads (some fd) path = record { at = λ s h. h }

  with_user-Reads :
      {A : Type 0} (device : Text) (body : Bus (Audited S) → M (Audited S) A)
      → ((u : XdmaUser) → Reads (body (user_bus (audited host) rounds u)))
      → Reads (with_user (audited host) rounds device body)
  unfolding with_user
  with_user-Reads device body k = Keeps-bind _ _ (xdma_user-Reads device) (λ u.
      let closing = Keeps-bind _ _ (close-Reads u.fd u.path) (λ _. Keeps-pure tt) in
      Keeps-bind _ _ (Keeps-on_throw _ _ (k u) closing)
        (λ a. Keeps-bind _ _ closing (λ _. Keeps-pure a)))

  run_action-Reads :
      (units : Units) (action : BoardAction) (json : Bool) (board : BoardAccess (Audited S))
      → ReadsBoard (λ s. all nothing s.effects ≡ true) board
      → Reads (run_action (audited host) units action json board)
  unfolding run_action
  run_action-Reads units show json board reads =
      let read = snapshot-Reads board reads in search (keeps_rules, say-Reads) depth 9
  run_action-Reads units name json board reads =
      let read = product_id-Reads board reads in search (keeps_rules, say-Reads) depth 9
  run_action-Reads units version json board reads =
      let read = image_version-Reads board reads in search (keeps_rules, say-Reads) depth 9
  run_action-Reads units dna json board reads =
      let read = value-Reads board reads in search (keeps_rules, say-Reads) depth 9
  run_action-Reads units temperature json board reads =
      let read = temperature_sample-Reads board reads in search (keeps_rules, say-Reads) depth 9
  run_action-Reads units voltages json board reads =
      let internal = vccint_sample-Reads board reads in
      let auxiliary = vccaux_sample-Reads board reads in search (keeps_rules, say-Reads) depth 9

  run_board-Reads :
      (units : Units) (command : BoardCommand)
      → Reads (run_board (audited host) units rounds command)
  unfolding run_board
  run_board-Reads units command = with_user-Reads _ _ (λ u.
      Keeps-bind_hands _ _ (board_access-Hands _ (user_bus-Reads u) command.layout) (λ board reads.
        Keeps-bind _ _ (run_action-Reads units command.action command.json board reads)
          (λ _. Keeps-pure 0)))

-- `fpgactl board` only reads, whichever of its six actions is asked for: from a host whose effects are counted from here, and
-- whatever the host and the registers answer, none is there after it: no register or other device is written, no file, no
-- directory, no mode, and no command is run.
pub run_board_only_reads :
    {S : Type 0} (host : Host S) (units : Units) (rounds : ℕ) (command : BoardCommand)
    (s : Audited S)
    → s.effects ≡ []
    → (run_board (audited host) units rounds command s).1.effects ≡ []
run_board_only_reads host units rounds command s none_yet =
    let kept = (run_board-Reads host rounds units command).at s (ap (all nothing) none_yet) in
    on _ kept
  where
    on : (effects : List Effect) → all nothing effects ≡ true → effects ≡ []
    on [] h = refl
    on (e ∷ effects) h = absurd (ground arith)
