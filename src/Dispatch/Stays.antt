-- ===== src/Dispatch/Stays.antt =====
-- Who ends the daemon.
use amigactl.Prelude.{
  ℕ, Bool, true, false, not, List, ◌≡◌, refl, if_intro, c_str, skip_blanks, word, after_word,
}
use amigactl.Config.{Config}
use amigactl.Receive.{Conn}
use amigactl.Dispatch.{
  Command, version, ping, quit, shutdown, reboot, unknown, handled, commands, lookup_command,
  confirmed, Daemon, Handlers, cmd_shutdown, cmd_reboot, handle, perform_command, dispatch_command,
}

-- The line is a SHUTDOWN with its keyword, and the configuration permits it.
pub record Permitted (config : Config) (cmd : List ℕ) : Type 0 where
  pub verb : lookup_command commands (word (c_str cmd)) ≡ shutdown
  pub keyword : confirmed (skip_blanks (after_word (c_str cmd))) ≡ true
  pub allowed : config.allow_remote_shutdown ≡ true

module _ {S : Type 0} (handlers : Handlers S) (config : Config) where
  -- The test that a command passed if it has ended the daemon.
  Passed : Command → List ℕ → Type 0
  Passed command rest =
      (command ≡ shutdown) × (confirmed rest ≡ true) × (config.allow_remote_shutdown ≡ true)

  cmd_shutdown-Passed :
      (rest : List ℕ) (d : Daemon S)
      → d.running ≡ true
      → (cmd_shutdown handlers config rest d).running ≡ false
      → Passed shutdown rest
  unfolding cmd_shutdown Passed
  cmd_shutdown-Passed rest d runs =
      if_intro (λ (d' : Daemon S). d'.running ≡ false → Passed shutdown rest) (not (confirmed rest))
        _ _ (λ _ ends. absurd cc)
        (λ e.
          if_intro (λ (d' : Daemon S). d'.running ≡ false → Passed shutdown rest)
            (not config.allow_remote_shutdown) _ _ (λ _ ends. absurd cc)
            (λ e' ends. (refl, unnot (confirmed rest) e, unnot config.allow_remote_shutdown e')))
    where
      unnot : (b : Bool) → not b ≡ false → b ≡ true
      unnot true h = refl
      unnot false h = absurd cc

  cmd_reboot-running :
      (rest : List ℕ) (d : Daemon S) → (cmd_reboot handlers config rest d).running ≡ d.running
  unfolding cmd_reboot
  cmd_reboot-running rest d =
      if_intro (λ (d' : Daemon S). d'.running ≡ d.running) (not (confirmed rest)) _ _ (λ _. refl)
        (λ _.
          if_intro (λ (d' : Daemon S). d'.running ≡ d.running) (not config.allow_remote_reboot) _ _
            (λ _. refl) (λ _. refl))

  perform_command-Passed :
      (command : Command) (rest : List ℕ) (d : Daemon S) (c : Conn)
      → d.running ≡ true
      → (perform_command handlers config command rest d c).state.running ≡ false
      → Passed command rest
  unfolding perform_command handle
  perform_command-Passed version rest d c runs ends = absurd cc
  perform_command-Passed ping rest d c runs ends = absurd cc
  perform_command-Passed quit rest d c runs ends = absurd cc
  perform_command-Passed shutdown rest d c runs ends = cmd_shutdown-Passed rest d runs ends
  perform_command-Passed reboot rest d c runs ends =
      let same = cmd_reboot-running rest d in absurd cc
  perform_command-Passed unknown rest d c runs ends = absurd cc
  perform_command-Passed (handled verb) rest d c runs ends = absurd cc

  -- A line after which the daemon no longer runs was a SHUTDOWN with the keyword CONFIRM, under a
  -- configuration that permits it.
  pub dispatch_command-Permitted :
      (d : Daemon S) (cmd : List ℕ) (c : Conn)
      → d.running ≡ true
      → (dispatch_command handlers config d cmd c).state.running ≡ false
      → Permitted config cmd
  unfolding dispatch_command Passed
  dispatch_command-Permitted d cmd c runs ends =
      let (verb, keyword, allowed) = perform_command-Passed _ _ d c runs ends in
      record { verb = verb; keyword = keyword; allowed = allowed }
