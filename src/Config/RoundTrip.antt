-- ===== src/Config/RoundTrip.antt =====
-- What the writer saves, the loader reads back.
use pipeasio.Prelude.{false, Bool, inl, inr, ◌≡◌, refl, ap, ◌∙◌, true, [], arith, ℤ, IsInt32}
use pipeasio.Config.{Config, mode_free}
use pipeasio.Config.Lines.{IsValue}
use pipeasio.Config.Parse.{
  Loader, apply_mode, migrate, validate, load_file, read_lines, unset, config_load, World,
  mode_known,
}
use pipeasio.Config.Reading.{
  reads, comment-line, section-line, inputs-line, outputs-line, buffer_size-line,
  fixed_buffer_size-line, sample_rate-line, auto_connect-line, follow_device_clock-line,
  buffer_mode-line, rt_priority-line, output_device-line, input_device-line, node_name-line,
}
use pipeasio.Config.Save.{render}
use pipeasio.Config.Text.{skip_space, strip_end}
use pipeasio.Config.Validate.{IsValid, config_load-cases, NamesFit, validate_of_IsValid}

-- Settings whose lines the loader reads as they were written: each number is a C `int`, and each
-- name is text on one line, short enough for its array, with no white space at either end.
pub record IsPrintable (c : Config) : Type 0 where
  pub inputs_int : IsInt32 c.inputs
  pub outputs_int : IsInt32 c.outputs
  pub size_int : IsInt32 c.buffer_size
  pub rate_int : IsInt32 c.sample_rate
  pub mode_int : IsInt32 c.buffer_mode
  pub priority_int : IsInt32 c.rt_priority
  pub fits : NamesFit c
  pub output_value : IsValue c.output_device
  pub input_value : IsValue c.input_device
  pub node_value : IsValue c.node_name

-- Valid settings that can be printed.
pub record IsStorable (c : Config) : Type 0 where
  pub valid : IsValid c
  pub printable : IsPrintable c

reads-nil : (c : Config) → reads [] c ≡ record { out = c; in_section = true }
unfolding read_lines
reads-nil c = refl

read_lines-render :
    (c : Config) → IsPrintable c → reads (render c) unset ≡ record { out = c; in_section = true }
unfolding render
read_lines-render c s =
    comment-line _ _
    ∙ section-line _ _
    ∙ inputs-line _ _ c.inputs s.inputs_int
    ∙ outputs-line _ _ c.outputs s.outputs_int
    ∙ buffer_size-line _ _ c.buffer_size s.size_int
    ∙ fixed_buffer_size-line _ _ c.fixed_buffer_size
    ∙ sample_rate-line _ _ c.sample_rate s.rate_int
    ∙ auto_connect-line _ _ c.auto_connect
    ∙ follow_device_clock-line _ _ c.follow_device_clock
    ∙ buffer_mode-line _ _ c.buffer_mode s.mode_int
    ∙ rt_priority-line _ _ c.rt_priority s.priority_int
    ∙ output_device-line _ _ c.output_device s.output_value s.fits.output_fits
    ∙ input_device-line _ _ c.input_device s.input_value s.fits.input_fits
    ∙ node_name-line _ _ c.node_name s.node_value s.fits.node_fits
    ∙ reads-nil c

-- A file that the writer made is read, migrated and validated as the settings that were printed.
pub load_file-render_printable :
    (c : Config) → IsPrintable c → load_file (render c) ≡ validate (migrate c)
unfolding load_file
load_file-render_printable c s =
    ap (λ (l : Loader). validate (migrate l.out)) (read_lines-render c s)

migrate_of_known : (c : Config) → mode_known c.buffer_mode ≡ true → migrate c ≡ c
unfolding migrate
migrate_of_known c h = ground arith

apply_mode_of_IsValid : (c : Config) → IsValid c → apply_mode c ≡ c
unfolding apply_mode
apply_mode_of_IsValid c v = rw (← v.fixed_mirrors, ← v.follow_mirrors)

-- Settings that are valid and printable, once rendered as the file's text, are loaded unchanged.
pub load_file-render : (c : Config) → IsStorable c → load_file (render (apply_mode c)) ≡ c
load_file-render c s =
    ap (λ (d : Config). load_file (render d)) (apply_mode_of_IsValid c s.valid)
    ∙ load_file-render_printable c s.printable
    ∙ ap validate (migrate_of_known c s.valid.mode_ok)
    ∙ validate_of_IsValid c s.valid

unset_saved :
    (b : ℤ)
    → IsInt32 b
    → (load_file (render (apply_mode (record unset { buffer_size = b })))).buffer_mode ≡ mode_free
unfolding apply_mode validate migrate skip_space strip_end
unset_saved b h =
    ap (λ (d : Config). d.buffer_mode)
      (load_file-render_printable (apply_mode (record unset { buffer_size = b })) (printable b h))
  where
    nothing : IsValue []
    nothing = record { inline = tt; no_space_front = refl; no_space_end = refl }

    printable : (z : ℤ) → IsInt32 z → IsPrintable (apply_mode (record unset { buffer_size = z }))
    printable z k = record {
      inputs_int = omega arith;
      outputs_int = omega arith;
      size_int = k;
      rate_int = omega arith;
      mode_int = omega arith;
      priority_int = omega arith;
      fits = omega arith;
      output_value = nothing;
      input_value = nothing;
      node_value = nothing;
    }

no_file : (w : World) → (config_load w).0 ≡ false → (config_load w).1 ≡ unset
no_file w h = elim (config_load-cases w) [
  | inl (e, _, _) ↦ absurd (cc e)
  | inr e ↦ ap (λ (r : Bool × Config). r.1) e
]

-- Where the load finds no file, its settings with any buffer size are read back, once they are saved, in
-- the mode in which the host picks the size, though the default mode is the fixed one.
pub config_load_missing-mode_free :
    (w : World) (b : ℤ)
    → (config_load w).0 ≡ false
    → IsInt32 b
    → (load_file (render (apply_mode (record (config_load w).1 { buffer_size = b })))).buffer_mode
      ≡ mode_free
config_load_missing-mode_free w b missing h =
    ap
      (λ (c : Config). (load_file (render (apply_mode (record c { buffer_size = b })))).buffer_mode)
      (no_file w missing)
    ∙ unset_saved b h
